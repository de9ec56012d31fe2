-- ===== src/Config/Tests.antt =====
-- Runs of the configuration (src/config.c), and its theorems at inputs.
use valiant.Prelude.{
  ℕ, suc, ◌<◌, ◌≤◌, ◌≡◌, refl, Bool, true, false, Option, none, some, List, [], ◌∷◌, ◌++◌, length,
  Bytes, codes, arith,
}
use valiant.Prelude.Int.{pos}
use valiant.Config.Types.{
  Outcome, ok, Value, lng, str, int_type, deref, entry, opt_vals, load, memmove, same_value_type,
  value_type, same_type,
}
use valiant.Config.Tree.{
  Config, config, body_file, Cells, end, node, gap, def, def_opt, def_sec, Defs, def_end, def_next,
  to_list, of_list, body_of, name_of, type_of, body_type, create, opt_create, sec_create,
}
use valiant.Config.Scanner.{
  Token, eof, left_curly, right_curly, equal_sign, value, Scanner, Advances, is_end,
}
use valiant.Config.Validate.{flags_none, parse_str}
use valiant.Config.Parse.{parse}
use valiant.Prelude.{strcmp, strcasecmp, tolower}
use valiant.Config.Options.{
  place, step_back, past, advance, setn_cmn, getn_cmn, getn_marks, count, grown, put_value,
  new_value,
}
use valiant.Config.Access.{setnint, setnstr, expect_type, inst_set, read_lng}
use valiant.Config.Sections.{
  sec_setn_cmn, sec_getn_cmn, count_opts, counts, marks_of, mark, sets, nonempty, put_opt,
  insert_opt, release, clone,
}
use valiant.Config.Lookup.{opts_of, with_opts, opt_of, with_opt, sec_setnsec, sec_setnopt, sec_set}
use valiant.Config.Items.{
  find_def, same_name, opt_at, update_opt, parse_sec, sec_round, parse_opt, opt_round, setn_value,
  undeclared, title_of, with_title, placed,
}
use valiant.Config.Parse.{inspect, parse_round, declare, parse_section, parse_option}
use valiant.Config.Defaults.{
  defaults_of, defaults, default_def, default_body, default_opt, set_default, find_opt, add_opt,
  issec, sec_flags, opt_flags,
}
use valiant.Config.Validate.{validate, check_titles, scan_titles, check_func}
use valiant.Config.Scanner.{sec_def, opt_def}

-- Values are numbers here; they are equal when they are the same.
abbrev pub same : Value ℕ → Value ℕ → Bool
same a b = true

-- A lexical analyzer that reads from a list of tokens.
abbrev pub next_token : List (Token ℕ) → Token ℕ × List (Token ℕ)
next_token [] = (eof, [])
next_token (t ∷ l) = (t, l)

abbrev pub tokens : Scanner ℕ
tokens = record {
  Lexer = List (Token ℕ);
  next = λ d l. next_token l;
  line = λ l. length l;
  column = λ l. 0;
}

pub next_token-lt :
    (l : List (Token ℕ)) → is_end (next_token l).0 ≡ false → length (next_token l).1 < length l
unfolding is_end
next_token-lt [] h = cc
next_token-lt (t ∷ l) h = omega arith

pub next_token-le : (l : List (Token ℕ)) → length (next_token l).1 ≤ length l
next_token-le [] = omega arith
next_token-le (t ∷ l) = omega arith

abbrev pub tokens_advance : Advances tokens
tokens_advance = record {
  remaining = λ l. length l;
  advances = λ d l. next_token-lt l;
  keeps = λ d l. next_token-le l;
}

abbrev pub word : Bytes → Token ℕ
word s = value (str s)

-- dict NAME { weight = 5 } and threads = 3
abbrev pub dict_defs : Defs ℕ
dict_defs =
    def_next (def (codes "weight") flags_none (def_opt none none int_type (lng (pos 1))) none)
      def_end

abbrev pub defs : Defs ℕ
defs =
    def_next
      (def (codes "dict") (record flags_none { multi = true; title = true; nodupes = true })
        (def_sec none dict_defs) none)
      (def_next (def (codes "threads") flags_none (def_opt none none int_type (lng (pos 9))) none)
        def_end)

abbrev pub dict : Bytes → List (Token ℕ)
dict title =
    word (codes "dict")
    ∷ word title
    ∷ left_curly
    ∷ word (codes "weight")
    ∷ equal_sign
    ∷ value (lng (pos 5))
    ∷ right_curly
    ∷ []

abbrev pub threads : List (Token ℕ)
threads = word (codes "threads") ∷ equal_sign ∷ value (lng (pos 3)) ∷ []

-- how many entries there are, and how many of them are options
abbrev entries : {Double : Type 0} → Cells Double → ℕ × ℕ
entries end = (0, 0)
entries (node c cells) = let (n, m) = entries cells in (suc n, suc m)
entries (gap h cells) = let (n, m) = entries cells in (suc n, m)

abbrev shape : Outcome (Config ℕ) → Option (ℕ × ℕ)
shape (ok (config name flags l c (body_file cells))) = some (entries cells)
shape _ = none

two_dicts :
    shape (parse_str same tokens 20 defs (dict (codes "a") ++ dict (codes "b") ++ threads))
    ≡ some (3, 3)
unfolding parse_str parse inspect parse_round declare find_def same_name strcmp strcasecmp opts_of
    with_opts opt_of with_opt body_of name_of type_of create opt_create sec_create parse_section
    parse_option sec_setnsec sec_setnopt sec_set sec_setn_cmn sec_getn_cmn count_opts counts
    marks_of mark sets nonempty place step_back past advance put_opt insert_opt memmove load release
    deref entry opt_at update_opt parse_sec sec_round parse_opt opt_round setn_value setnint setnstr
    expect_type inst_set setn_cmn getn_cmn getn_marks count grown put_value new_value opt_vals
    value_type same_value_type same_type undeclared title_of with_title placed to_list of_list
    defaults_of defaults default_def default_body default_opt set_default find_opt add_opt issec
    validate check_titles scan_titles check_func sec_flags opt_flags read_lng clone body_type
    tolower sec_def opt_def
two_dicts = refl

-- Where another option stands between two sections of one name, an entry is lost.
torn :
    shape (parse_str same tokens 20 defs (dict (codes "a") ++ threads ++ dict (codes "b"))) ≡ none
unfolding parse_str parse inspect parse_round declare find_def same_name strcmp strcasecmp opts_of
    with_opts opt_of with_opt body_of name_of type_of create opt_create sec_create parse_section
    parse_option sec_setnsec sec_setnopt sec_set sec_setn_cmn sec_getn_cmn count_opts counts
    marks_of mark sets nonempty place step_back past advance put_opt insert_opt memmove load release
    deref entry opt_at update_opt parse_sec sec_round parse_opt opt_round setn_value setnint setnstr
    expect_type inst_set setn_cmn getn_cmn getn_marks count grown put_value new_value opt_vals
    value_type same_value_type same_type undeclared title_of with_title placed to_list of_list
    defaults_of defaults default_def default_body default_opt set_default find_opt add_opt issec
    validate check_titles scan_titles check_func sec_flags opt_flags read_lng clone body_type
    tolower sec_def opt_def
torn = refl
