-- ===== src/Config/Parse.antt =====
-- The parser of src/config.c: `vt_config_parse` over the parts, where memory can be allocated.
use valiant.Prelude.{ℕ, zero, suc, Bool, true, Option, none, some, if◌then◌else◌, Bytes}
use valiant.Prelude.Int.{negsuc}
use valiant.Config.Types.{
  Outcome, ok, err, out_of_fuel, ◌>>=◌, ◌>>◌, Flags, type_sec, type_file, same_type, Value, str,
  ValueType,
}
use valiant.Config.Tree.{Config, Def, def, def_opt, def_sec, Defs, body_of, type_of}
use valiant.Config.Lookup.{opts_of, opt_of, with_opt, sec_setnopt, sec_setnsec}
use valiant.Config.Scanner.{
  Token, eof, comment_single, comment_multi, right_curly, value, Scanner, plain_def, sec_def,
  opt_def,
}
use valiant.Config.Items.{
  appended_compared, expect_equal_sign, find_def, undeclared, placed, update_opt, opt_at, parse_opt,
  parse_sec,
}

module _ {Double : Type 0} (same : Value Double → Value Double → Bool) (S : Scanner Double) where
  -- The option of `vt_config_parse` behind its name: it is made, and its values are read. With the
  -- token that is left over where it is a list.
  unfoldable pub parse_option :
      (fuel : ℕ)
      → Config Double
      → Bytes
      → Flags
      → (dquot squot : Option Bytes) → ValueType
      → S.Lexer
      → Outcome (Token Double × Config Double × S.Lexer)
  parse_option fuel sec name flags dquot squot type l = do
    (made, at) ← sec_setnopt sec name flags (negsuc 0) appended_compared true
    o ← opt_at made at
    opt ← opt_of o
    (token, opt', l') ←
        parse_opt same S fuel (opt_def dquot squot type) flags.list expect_equal_sign
          (record opt { type = type }) l
    sec' ← update_opt made at (with_opt (placed o (S.line l) (S.column l)) opt')
    ok (token, sec', l')

  -- The section of `vt_config_parse` behind its name.
  unfoldable pub parse_section :
      (fuel : ℕ)
      → (inner : Config Double → S.Lexer → Outcome (Config Double × S.Lexer)) → Config Double
      → Bytes
      → Flags
      → (title : Option Bytes) → S.Lexer
      → Outcome (Config Double × S.Lexer)
  parse_section fuel inner sec name flags title l = do
    (made, at) ← sec_setnsec sec name flags (negsuc 0) appended_compared true
    o ← opt_at made at
    (o', l') ←
        parse_sec same S fuel (sec_def title) flags.title inner (placed o (S.line l) (S.column l)) l
    sec' ← update_opt made at o'
    ok (sec', l')

  -- What `vt_config_parse` does once it has the definition of a name; `inspect` goes on with a token
  -- that has been read, `again` with the next one, `inner` is `vt_config_parse` for a section.
  unfoldable pub declare :
      (fuel : ℕ)
      → (inspect : Config Double → Token Double → S.Lexer → Outcome (Config Double × S.Lexer))
      → (again : Config Double → S.Lexer → Outcome (Config Double × S.Lexer))
      → (inner : Defs Double → Config Double → S.Lexer → Outcome (Config Double × S.Lexer))
      → Config Double
      → Bytes
      → Option (Def Double)
      → S.Lexer
      → Outcome (Config Double × S.Lexer)
  declare fuel inspect again inner sec name none l = err
  declare fuel inspect again inner sec name (some (def n flags (def_sec title defs) check)) l = do
    cells ← opts_of (body_of sec)
    if flags.multi then ok tt else undeclared flags.nocase n cells
    (sec', l') ←
        parse_section fuel (inner defs) sec name (record flags { nodefault = true }) title l
    again sec' l'
  declare fuel inspect again inner sec name (some (def n flags (def_opt dquot squot type v) check))
        l =
      do
        cells ← opts_of (body_of sec)
        undeclared flags.nocase n cells
        (token, sec', l') ←
            parse_option fuel sec name (record flags { nodefault = true }) dquot squot type l
        if flags.list then inspect sec' token l' else again sec' l'

  -- A round of `vt_config_parse` behind the token.
  unfoldable pub parse_round :
      (again : Config Double → S.Lexer → Outcome (Config Double × S.Lexer))
      → (declared : Bytes → Outcome (Config Double × S.Lexer)) → Config Double
      → Token Double
      → S.Lexer
      → Outcome (Config Double × S.Lexer)
  parse_round again declared sec eof l =
      if same_type (type_of sec) type_sec then err else ok (sec, l)
  parse_round again declared sec right_curly l =
      if same_type (type_of sec) type_file then err else ok (sec, l)
  parse_round again declared sec comment_single l = again sec l
  parse_round again declared sec comment_multi l = again sec l
  parse_round again declared sec (value (str name)) l = declared name
  parse_round again declared sec token l = err

  -- `vt_config_parse` from `inspect` on, where a token has been read
  unfoldable pub inspect :
      (fuel : ℕ)
      → Defs Double
      → Config Double
      → Token Double
      → S.Lexer
      → Outcome (Config Double × S.Lexer)
  inspect zero defs sec token l = out_of_fuel
  inspect (suc fuel) defs sec token l =
      let go = λ (ds : Defs Double) (s : Config Double) (l' : S.Lexer).
        inspect fuel ds s (S.next plain_def l').0 (S.next plain_def l').1 in
      parse_round (go defs)
        (λ name. declare fuel (inspect fuel defs) (go defs) go sec name (find_def name defs) l) sec
        token l

  -- `vt_config_parse`
  unfoldable pub parse :
      (fuel : ℕ) → Defs Double → Config Double → S.Lexer → Outcome (Config Double × S.Lexer)
  parse fuel defs sec l = inspect fuel defs sec (S.next plain_def l).0 (S.next plain_def l).1
