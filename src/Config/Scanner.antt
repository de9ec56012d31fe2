-- ===== src/Config/Scanner.antt =====
-- The lexical analyzer that src/config.c calls, which is not in the repository: its tokens, the
-- settings that it is called with, and what the parser relies on.
use valiant.Prelude.{ℕ, ◌<◌, ◌≤◌, ◌≡◌, Bool, true, false, Option, none, some, Bytes}
use valiant.Config.Types.{Value, ValueType, bool_type, int_type, float_type, str_type}

-- `vt_token_t`, with the value that stands in the lexical analyzer
pub data Token (Double : Type 0) : Type 0 where
  eof error comment_single comment_multi left_curly right_curly equal_sign comma : Token Double
  value : Value Double → Token Double
  other : ℕ → Token Double

-- `VT_CHRS_*`, or characters that the definition gives
pub data Chars : Type 0 where
  no_chars chrs_space chrs_str_first chrs_str chrs_dquot chrs_squot : Chars
  chars : Bytes → Chars

-- `vt_lexer_def_t`
pub record LexerDef : Type 0 where
  pub space : Chars
  pub str_first : Chars
  pub str : Chars
  pub dquot : Chars
  pub squot : Chars
  pub char_as_token : Bool
  pub scan_bool : Bool
  pub int_as_float : Bool
  pub scan_binary : Bool
  pub scan_octal : Bool
  pub scan_hex : Bool
  pub scan_hex_dollar : Bool
  pub numbers_as_int : Bool

-- `vt_lexer_get_next_token`, and the line and the column of its token
pub record Scanner (Double : Type 0) : Type 1 where
  pub Lexer : Type 0
  pub next : LexerDef → Lexer → Token Double × Lexer
  pub line : Lexer → ℕ
  pub column : Lexer → ℕ

-- Tokens behind which nothing is read.
unfoldable pub is_end : {Double : Type 0} → Token Double → Bool
is_end eof = true
is_end error = true
is_end _ = false

-- Every other token takes some of what is left.
pub record Advances {Double : Type 0} (S : Scanner Double) : Type 0 where
  pub remaining : S.Lexer → ℕ
  pub advances :
      (d : LexerDef) (l : S.Lexer)
      → is_end (S.next d l).0 ≡ false
      → remaining (S.next d l).1 < remaining l
  pub keeps : (d : LexerDef) (l : S.Lexer) → remaining (S.next d l).1 ≤ remaining l

-- the settings of `vt_config_parse`
abbrev pub plain_def : LexerDef
plain_def = record {
  space = chrs_space;
  str_first = chrs_str_first;
  str = chrs_str;
  dquot = no_chars;
  squot = no_chars;
  char_as_token = true;
  scan_bool = false;
  int_as_float = false;
  scan_binary = false;
  scan_octal = false;
  scan_hex = false;
  scan_hex_dollar = false;
  numbers_as_int = false;
}

-- the settings of `vt_config_parse_sec`
unfoldable pub sec_def : Option Bytes → LexerDef
sec_def none = plain_def
sec_def (some title) = record plain_def { str_first = chars title; str = chars title }

-- the settings for numbers
abbrev pub number_def : (int_as_float : Bool) → LexerDef
number_def int_as_float = record plain_def {
  int_as_float = int_as_float;
  scan_binary = true;
  scan_octal = true;
  scan_hex = true;
  scan_hex_dollar = true;
  numbers_as_int = true;
}

-- the quotes of `vt_config_parse_opt`: where no double quotes are given, the assignment goes to
-- `squot`, and the next one takes its place
unfoldable pub str_def : (dquot squot : Option Bytes) → LexerDef
str_def none none = record plain_def { squot = chrs_squot }
str_def none (some s) = record plain_def { squot = chars s }
str_def (some d) none = record plain_def { dquot = chars d; squot = chrs_squot }
str_def (some d) (some s) = record plain_def { dquot = chars d; squot = chars s }

-- the settings of `vt_config_parse_opt`
unfoldable pub opt_def : (dquot squot : Option Bytes) → ValueType → LexerDef
unfolding str_def
opt_def dquot squot ValueType.none_type = plain_def
opt_def dquot squot bool_type = record plain_def { scan_bool = true }
opt_def dquot squot int_type = number_def false
opt_def dquot squot float_type = number_def true
opt_def dquot squot str_type = str_def dquot squot
