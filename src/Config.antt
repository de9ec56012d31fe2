-- ===== src/Config.antt =====
-- The configuration (src/config.c): options and sections, the parser of a configuration file, the
-- defaults and the validation. `config.h` includes vt_lexer.h and vt_value.h, which are not in the
-- repository: their lexical analyzer and `vt_value_cmp` are parameters.
pub mod Types
pub mod Options
pub mod Access
pub mod Tree
pub mod Sections
pub mod Lookup
pub mod ByName
pub mod Scanner
pub mod Items
pub mod Parse
pub mod Defaults
pub mod Validate
pub mod Titles
pub mod Counted
pub mod Inserted
pub mod Placed
pub mod Found
pub mod Typed
pub mod Named
pub mod Added
pub mod Rounds
pub mod Filled
mod Tests
mod Examples
pub mod Settled
pub mod Ends
pub mod Terminates
pub mod Positions
pub mod Moves
pub mod Shifts
pub mod Stored
pub mod Kept
pub mod Lost
