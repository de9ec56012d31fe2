-- ===== src/Config/Validate.antt =====
-- Validation and the whole of reading a configuration (src/config.c): `vt_config_validate`,
-- `vt_config_parse_str`, where memory can be allocated.
use valiant.Prelude.{
  ℕ, zero, suc, Bool, false, ◌&&◌, Option, none, some, List, [], ◌∷◌, if◌then◌else◌, Bytes,
}
use valiant.Config.Types.{
  Outcome, ok, err, fault, ◌>>=◌, ◌>>◌, null, junk, freed, Cell, item, hole, deref, Flags, Value,
}
use valiant.Config.Tree.{
  Config, body_file, end, def, Defs, def_end, def_next, name_of, body_of, create,
}
use valiant.Config.Lookup.{opts_of}
use valiant.Config.Scanner.{Scanner}
use valiant.Config.Items.{same_name, title_of}
use valiant.Config.Parse.{parse}
use valiant.Config.Defaults.{issec, defaults_of}

module _ {Double : Type 0} where
  -- `vt_config_issec (opts[i]) && strcmp_func (opts[i]->name, def->name) == 0`
  unfoldable pub is_named : (nocase : Bool) → Bytes → Config Double → Bool
  is_named nocase name o = issec (body_of o) && same_name nocase (name_of o) name

  -- The inner loop behind `cur`: how far the first section with the name is, which `optno` goes to,
  -- the end where there is none; an error where one has the title.
  unfoldable pub scan_titles :
      (nocase : Bool) → Bytes → (title : Bytes) → List (Cell (Config Double)) → Outcome ℕ
  unfolding is_named
  scan_titles nocase name title [] = ok 0
  scan_titles nocase name title (c ∷ cells) =
      let rest = scan_titles nocase name title cells in
      do
        o ← deref c
        let named = is_named nocase name o
        if named && same_name nocase title (title_of o) then err else ok tt
        n ← rest
        ok (if named then 0 else suc n)

  -- The outer loop: `skip` entries are behind `optno`.
  unfoldable pub check_titles :
      (nocase : Bool) → Bytes → (skip : ℕ) → List (Cell (Config Double)) → Outcome (Unit {0})
  unfolding scan_titles
  check_titles nocase name skip [] = ok tt
  check_titles nocase name (suc skip) (c ∷ cells) = check_titles nocase name skip cells
  check_titles nocase name zero (c ∷ cells) = do
    o ← deref c
    skip ← if is_named nocase name o then scan_titles nocase name (title_of o) cells else ok 0
    check_titles nocase name skip cells

  -- the calls of `validate_func`, which stop at the first one that does not return 0
  unfoldable pub check_opts :
      (nocase : Bool)
      → Bytes
      → (Config Double → Config Double → Bool)
      → (root : Config Double) → List (Cell (Config Double))
      → Outcome (Unit {0})
  check_opts nocase name check root [] = ok tt
  check_opts nocase name check root (item o ∷ cells) =
      let rest = check_opts nocase name check root cells in
      do
        (if same_name nocase (name_of o) name then (if check root o then ok tt else err) else ok tt)
        rest
  check_opts nocase name check root (hole null ∷ cells) = check_opts nocase name check root cells
  check_opts nocase name check root (hole junk ∷ cells) = fault
  check_opts nocase name check root (hole freed ∷ cells) = fault

  -- `if (def->validate_func)`
  unfoldable pub check_func :
      (nocase : Bool)
      → Bytes
      → Option (Config Double → Config Double → Bool)
      → (root : Config Double) → List (Cell (Config Double))
      → Outcome (Unit {0})
  unfolding check_opts
  check_func nocase name none root cells = ok tt
  check_func nocase name (some check) root cells = check_opts nocase name check root cells

  -- `vt_config_validate`
  unfoldable pub validate :
      (root : Config Double) → List (Cell (Config Double)) → Defs Double → Outcome (Unit {0})
  validate root cells def_end = ok tt
  validate root cells (def_next (def name flags body check) defs) = do
    if flags.title && flags.nodupes then check_titles flags.nocase name 0 cells else ok tt
    check_func flags.nocase name check root cells
    validate root cells defs

-- `VT_CONFIG_FLAG_NONE`
abbrev pub flags_none : Flags
flags_none = record {
  multi = false;
  list = false;
  nocase = false;
  title = false;
  nodefault = false;
  nodupes = false;
}

module _ {Double : Type 0} (same : Value Double → Value Double → Bool) (S : Scanner Double) where
  -- `vt_config_parse_str`, with the lexical analyzer at the start of the string
  unfoldable pub parse_str : (fuel : ℕ) → Defs Double → S.Lexer → Outcome (Config Double)
  parse_str fuel defs l = do
    (root, l') ← parse same S fuel defs (create [] flags_none (body_file end)) l
    root' ← defaults_of same root defs
    cells ← opts_of (body_of root')
    validate root' cells defs
    ok root'
