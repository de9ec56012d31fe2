-- ===== src/Config/Items.antt =====
-- Parts of the parser of src/config.c: `vt_config_parse_opt`, `vt_config_parse_sec` and the loops of
-- `vt_config_parse`, where memory can be allocated. Loops that read tokens take fuel.
use valiant.Prelude.{
  ℕ, zero, suc, Bool, true, false, not, ◌&&◌, Option, none, some, List, [], ◌∷◌, if◌then◌else◌,
  Bytes, strcmp, strcasecmp, set, take,
}
use valiant.Prelude.Int.{negsuc}
use valiant.Config.Types.{
  Outcome, ok, err, fault, out_of_fuel, ◌>>=◌, ◌>>◌, Cell, item, deref, entry, Inst, inst_none,
  Value, no_value, bln, lng, dbl, str, value_type, same_value_type, Opt,
}
use valiant.Config.Access.{setnbool, setnint, setnfloat, setnstr}
use valiant.Config.Tree.{
  title_max, Config, config, body_sec, Def, def, Defs, def_end, def_next, name_of, body_of,
}
use valiant.Config.Sections.{nonempty}
use valiant.Config.Lookup.{opts_of, with_opts}
use valiant.Config.Scanner.{
  Token, comment_single, comment_multi, left_curly, equal_sign, comma, value, LexerDef, Scanner,
}

-- `VT_CONFIG_INST_APPEND`, and with `VT_CONFIG_INST_COMPARE`
abbrev pub appended : Inst
appended = record inst_none { append = true }

abbrev pub appended_compared : Inst
appended_compared = record inst_none { append = true; compare = true }

-- `expect` of `vt_config_parse_opt`
pub data Expect : Type 0 where
  expect_equal_sign expect_comma expect_none : Expect

-- `strcmp_func (a, b) == 0`
unfoldable pub same_name : (nocase : Bool) → Bytes → Bytes → Bool
same_name true a b = strcasecmp a b
same_name false a b = strcmp a b

module _ {Double : Type 0} where
  -- the loop over `defs`: the definition with the name
  unfoldable pub find_def : Bytes → Defs Double → Option (Def Double)
  unfolding same_name
  find_def name def_end = none
  find_def name (def_next (def n flags body check) defs) =
      if same_name flags.nocase n name then some (def n flags body check) else find_def name defs

  -- the loop over `opts`: an error where an option or a section has the name of the definition
  unfoldable pub undeclared :
      (nocase : Bool) → Bytes → List (Cell (Config Double)) → Outcome (Unit {0})
  undeclared nocase name [] = ok tt
  undeclared nocase name (c ∷ cells) = do
    o ← deref c
    if same_name nocase name (name_of o) then err else ok tt
    undeclared nocase name cells

  -- `opt->line = lxr->line; opt->column = lxr->column`
  unfoldable pub placed : Config Double → ℕ → ℕ → Config Double
  placed (config name flags l c body) line column = config name flags line column body

  -- the title, where there is none: `sec->flags |= VT_CONFIG_FLAG_TITLE` and `strncpy`
  unfoldable pub title_of : Config Double → Bytes
  title_of (config name flags l c (body_sec title cells)) = title
  title_of (config name flags l c _) = []

  unfoldable pub with_title : Config Double → Bytes → Config Double
  with_title (config name flags l c (body_sec old cells)) title =
      config name (record flags { title = true }) l c (body_sec (take title_max title) cells)
  with_title (config name flags l c body) title = config name flags l c body

  -- `opts[optno]` after it was changed in place
  unfoldable pub update_opt : Config Double → ℕ → Config Double → Outcome (Config Double)
  update_opt sec at o = do cells ← opts_of (body_of sec); ok (with_opts sec (set cells at (item o)))

  unfoldable pub opt_at : Config Double → ℕ → Outcome (Config Double)
  opt_at sec at = do cells ← opts_of (body_of sec); deref (entry cells at)

-- the setter for the value of a token
unfoldable pub setn_value :
    {Double : Type 0} (same : Value Double → Value Double → Bool) (opt : Opt Double)
    → Value Double
    → Outcome (Opt Double × ℕ)
setn_value same opt (bln v) = setnbool same opt v (negsuc 0) appended true
setn_value same opt (lng v) = setnint same opt v (negsuc 0) appended true
setn_value same opt (dbl v) = setnfloat same opt v (negsuc 0) appended true
setn_value same opt (str v) = setnstr same opt v (negsuc 0) appended true
setn_value same opt no_value = fault

module _ {Double : Type 0} (same : Value Double → Value Double → Bool) (S : Scanner Double) where
  -- A round of `vt_config_parse_opt` behind the token; `again` is the next one, and what it takes is
  -- what is expected then.
  unfoldable pub opt_round :
      (list : Bool)
      → (again : Expect → Opt Double → Outcome (Token Double × Opt Double × S.Lexer)) → Expect
      → Opt Double
      → Token Double
      → S.Lexer
      → Outcome (Token Double × Opt Double × S.Lexer)
  opt_round list again expect_equal_sign opt equal_sign l = again expect_none opt
  opt_round list again expect_comma opt comma l = again expect_none opt
  opt_round list again expect_comma opt (value v) l = ok (value v, opt, l)
  opt_round list again expect opt (value v) l =
      if same_value_type opt.type (value_type v)
      then (do
        (opt', at) ← setn_value same opt v
        if list then again expect_comma opt' else ok (value v, opt', l))
      else err
  opt_round list again expect opt token l = err

  -- `vt_config_parse_opt`, with `opt->data.opt.type` assigned
  unfoldable pub parse_opt :
      (fuel : ℕ)
      → LexerDef
      → (list : Bool) → Expect
      → Opt Double
      → S.Lexer
      → Outcome (Token Double × Opt Double × S.Lexer)
  parse_opt zero d list expect opt l = out_of_fuel
  parse_opt (suc fuel) d list expect opt l =
      let (token, l') = S.next d l in
      opt_round list (λ e o. parse_opt fuel d list e o l') expect opt token l'

  -- A round of `vt_config_parse_sec` behind the token; `again` is the next one, `inner` is
  -- `vt_config_parse`.
  unfoldable pub sec_round :
      (title : Bool)
      → (again : Config Double → Outcome (Config Double × S.Lexer))
      → (inner : Config Double → Outcome (Config Double × S.Lexer)) → Config Double
      → Token Double
      → Outcome (Config Double × S.Lexer)
  sec_round title again inner sec comment_single = again sec
  sec_round title again inner sec comment_multi = again sec
  sec_round title again inner sec left_curly =
      if title && not (nonempty (title_of sec)) then err else inner sec
  sec_round title again inner sec (value (str t)) =
      if title && not (nonempty (title_of sec)) then again (with_title sec t) else err
  sec_round title again inner sec token = err

  -- `vt_config_parse_sec`
  unfoldable pub parse_sec :
      (fuel : ℕ)
      → LexerDef
      → (title : Bool) → (inner : Config Double → S.Lexer → Outcome (Config Double × S.Lexer))
      → Config Double
      → S.Lexer
      → Outcome (Config Double × S.Lexer)
  parse_sec zero d title inner sec l = out_of_fuel
  parse_sec (suc fuel) d title inner sec l =
      let (token, l') = S.next d l in
      sec_round title (λ s. parse_sec fuel d title inner s l') (λ s. inner s l') sec token
