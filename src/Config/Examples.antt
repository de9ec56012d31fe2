-- ===== src/Config/Examples.antt =====
-- The theorems on the configuration (src/config.c) at inputs.
use valiant.Config.Types.{entry, hole, junk, freed}
use valiant.Config.Tree.{sec_create}
use valiant.Prelude.{
  ℕ, suc, ◌<◌, ◌≤◌, ◌≡◌, ◌≢◌, ◌↔◌, refl, true, false, ◌==◌, Option, none, some, List, [], ◌∷◌, ◌++◌,
  map, length, if◌then◌else◌, Bytes, codes, take, strcasecmp, tolower, arith,
}
use valiant.Prelude.Int.{ℤ, pos, negsuc}
use valiant.Config.Types.{
  ok, fault, Cell, item, Inst, inst_none, Value, lng, int_type, vals, Opt, opt_vals,
  same_value_type, value_type, same_type, type_opt,
}
use valiant.Config.Options.{
  setn_cmn, unsetn_cmn, count, getn_cmn, getn_marks, place, step_back, past, advance, grown,
  put_value, new_value,
}
use valiant.Config.Access.{getn, setnint, expect_type, inst_set}
use valiant.Config.Tree.{
  Config, config, body_file, body_sec, body_opt, end, to_list, of_list, body_of, name_of, type_of,
  body_type,
}
use valiant.Config.Sections.{mark, nonempty}
use valiant.Config.Lookup.{inst_compare, opts_of, sec_getnopt, sec_setnopt, sec_setnsec}
use valiant.Config.Scanner.{Token, equal_sign, comma, value, plain_def}
use valiant.Config.Items.{appended_compared, expect_equal_sign, opt_round, setn_value, parse_opt}
use valiant.Config.Parse.{parse}
use valiant.Config.Validate.{flags_none, check_titles}
use valiant.Config.Stored.{inst_replace, value_at}
use valiant.Config.Kept.{getn-setn_cmn}
use valiant.Config.Lost.{unsetn_cmn-dangles}
use valiant.Config.Ends.{Ends}
use valiant.Config.Terminates.{parse-Ends}
use valiant.Config.Titles.{AreDistinct, check_titles_iff}
use valiant.Config.Counted.{AreTyped}
use valiant.Config.Placed.{sec_key, sec_setnsec-repeated}
use valiant.Config.Found.{IsUnused, sec_getnopt-sec_setnopt}
use valiant.Config.Typed.{AreValues, opt_with, parse_opt-values}
use valiant.Config.Rounds.{Keeps, AreHeld}
use valiant.Config.Filled.{defaults_of-held}
use valiant.Config.Defaults.{
  defaults_of, defaults, default_def, default_body, default_opt, set_default, find_opt, add_opt,
  issec, opt_flags,
}
use valiant.Config.Sections.{sec_setn_cmn, sec_getn_cmn, count_opts, marks_of, put_opt, insert_opt}
use valiant.Config.Tree.{node, Defs, def, def_next, def_end, def_opt, create, opt_create}
use valiant.Config.Lookup.{with_opts, opt_of, with_opt}
use valiant.Config.Access.{read_lng}
use valiant.Config.Tests.{same, tokens, tokens_advance, defs, dict, threads}

-- An option with the values 1 and 2.
abbrev two : Opt ℕ
two = record { type = int_type; values = vals (item (lng (pos 1)) ∷ item (lng (pos 2)) ∷ []) }

is_int : same_value_type int_type int_type ≡ true
unfolding same_value_type
is_int = refl

getn-setn_cmn_example :
    (opt' : Opt ℕ) × (setn_cmn same two (some (lng (pos 7))) (negsuc 0) (inst_replace false) true
      ≡ ok (opt', 1))
    × (getn same opt' int_type (negsuc 0) ≡ ok (lng (pos 7)))
    × ((j : ℕ)
        → j < 2
        → getn same opt' int_type (pos j)
          ≡ (if 1 == j then ok (lng (pos 7)) else value_at (lng (pos 1) ∷ lng (pos 2) ∷ []) j))
getn-setn_cmn_example =
    getn-setn_cmn same two int_type (lng (pos 1)) (lng (pos 2) ∷ []) is_int refl (lng (pos 7))
      (negsuc 0) 1 false refl

unsetn_cmn-dangles_example :
    (opt' : Opt ℕ) × (unsetn_cmn same two none (pos 0) inst_none ≡ ok (opt', 0))
    × (length (opt_vals opt'.values) ≡ 1)
    × (entry (opt_vals opt'.values) 0 ≡ hole freed)
    × (getn same opt' int_type (pos 0) ≡ fault)
unsetn_cmn-dangles_example =
    unsetn_cmn-dangles same two int_type (lng (pos 1)) (lng (pos 2) ∷ []) is_int refl (pos 0) 0 refl
      (omega arith)

-- A file without options.
abbrev empty : Config ℕ
empty = config [] flags_none 0 0 (body_file end)

parse-Ends_example :
    Ends
      (λ r. length r.1)
      (suc (length (dict (codes "a") ++ threads)))
      (parse same tokens 11 defs empty (dict (codes "a") ++ threads))
parse-Ends_example =
    parse-Ends same tokens tokens_advance 11 defs empty (dict (codes "a") ++ threads) (omega arith)

-- Two sections with one name, and an option.
abbrev dict_a : Config ℕ
dict_a = config (codes "dict") flags_none 0 0 (body_sec (codes "a") end)

abbrev dict_b : Config ℕ
dict_b = config (codes "dict") flags_none 0 0 (body_sec (codes "b") end)

abbrev threads_opt : Config ℕ
threads_opt = config (codes "threads") flags_none 0 0 (body_opt two)

check_titles_iff_example :
    (check_titles false (codes "dict") 0 (map item (dict_a ∷ threads_opt ∷ dict_b ∷ [])) ≡ ok tt)
    ↔ AreDistinct false (codes "dict") (dict_a ∷ threads_opt ∷ dict_b ∷ [])
check_titles_iff_example =
    check_titles_iff false (codes "dict") (dict_a ∷ threads_opt ∷ dict_b ∷ [])

-- A file with a section, and another option behind it.
abbrev file : Config ℕ
file = config [] flags_none 0 0 (body_file (of_list (map item (dict_a ∷ threads_opt ∷ []))))

file_opts : opts_of (body_of file) ≡ ok (map item (dict_a ∷ threads_opt ∷ []))
unfolding opts_of body_of of_list to_list
file_opts = refl

dict_named : nonempty (take 31 (codes "dict")) ≡ true
unfolding nonempty
dict_named = refl

dict_typed : AreTyped (sec_key (codes "dict")) (dict_a ∷ threads_opt ∷ [])
unfolding strcasecmp tolower name_of type_of body_of body_type
dict_typed = ((λ h. refl), ((λ h. cc), tt))

dict_counted : count (map (mark (sec_key (codes "dict")) true) (dict_a ∷ threads_opt ∷ [])) ≡ 1
unfolding count mark nonempty strcasecmp name_of same_type type_of
dict_counted = refl

dict_unmarked : mark (sec_key (codes "dict")) true threads_opt ≡ false
unfolding mark nonempty strcasecmp name_of
dict_unmarked = refl

sec_setnsec-repeated_example :
    (sec' : Config ℕ) × (cells : List (Cell (Config ℕ))) × (at : ℕ) × (sec_setnsec file
        (codes "dict")
        flags_none
        (negsuc 0)
        appended_compared
        true
      ≡ ok (sec', at))
    × (opts_of (body_of sec') ≡ ok cells)
    × (at ≤ 1)
    × (length cells ≡ 3)
    × ((j : ℕ) → j < at → entry cells j ≡ entry (map item (dict_a ∷ threads_opt ∷ [])) j)
    × (entry cells at ≡ item (sec_create (codes "dict") flags_none none))
    × ((j : ℕ)
        → at < j
        → j ≤ 1
        → entry cells j ≡ entry (map item (dict_a ∷ threads_opt ∷ []) ++ hole junk ∷ []) (suc j))
    × (entry cells 2 ≡ hole junk)
    × ((other : Option Bytes) (idx : ℤ) (inst : Inst) (r : ℕ × Config ℕ)
        → sec_getnopt sec' other idx inst ≢ ok r)
sec_setnsec-repeated_example =
    sec_setnsec-repeated (codes "dict") (dict_a ∷ []) threads_opt file flags_none file_opts
      dict_named dict_typed 0 dict_counted dict_unmarked

port_named : nonempty (codes "port") ≡ true
unfolding nonempty
port_named = refl

port-IsUnused : IsUnused (codes "port") (dict_a ∷ threads_opt ∷ [])
unfolding strcasecmp tolower name_of
port-IsUnused = (refl, (refl, tt))

sec_getnopt-sec_setnopt_example :
    (sec' o : Config ℕ) × (sec_setnopt file
        (codes "port")
        flags_none
        (negsuc 0)
        appended_compared
        true
      ≡ ok (sec', 2))
    × (opts_of (body_of sec') ≡ ok (map item (dict_a ∷ threads_opt ∷ o ∷ [])))
    × (sec_getnopt sec' (some (codes "port")) (pos 0) inst_compare ≡ ok (2, o))
    × (name_of o ≡ codes "port")
    × (type_of o ≡ type_opt)
sec_getnopt-sec_setnopt_example =
    sec_getnopt-sec_setnopt (codes "port") port_named file (dict_a ∷ threads_opt ∷ []) flags_none
      file_opts (omega arith) port-IsUnused

-- The tokens `= 1, 2 name`.
abbrev numbers : List (Token ℕ)
numbers =
    equal_sign
    ∷ value (lng (pos 1))
    ∷ comma
    ∷ value (lng (pos 2))
    ∷ value (Value.str (codes "name"))
    ∷ []

numbers_run :
    parse_opt same tokens 9 plain_def true expect_equal_sign (opt_with int_type []) numbers
    ≡ ok (value (Value.str (codes "name")), opt_with int_type (lng (pos 1) ∷ lng (pos 2) ∷ []), [])
unfolding parse_opt opt_round setn_value setnint expect_type inst_set setn_cmn getn_cmn getn_marks
    count place step_back past advance grown put_value new_value opt_vals value_type same_value_type
numbers_run = refl

parse_opt-values_example :
    (ys : List (Value ℕ)) × (opt_with int_type (lng (pos 1) ∷ lng (pos 2) ∷ [])
      ≡ opt_with int_type ys)
    × AreValues int_type ys
    × (1 ≤ length ys)
    × (true ≡ false → length ys ≡ 1)
    × ((v : Value ℕ) × (value (Value.str (codes "name")) ≡ value v))
parse_opt-values_example =
    parse_opt-values same tokens 9 plain_def true int_type numbers []
      (value (Value.str (codes "name"))) (opt_with int_type (lng (pos 1) ∷ lng (pos 2) ∷ []))
      numbers_run

-- A definition of an option, and a file with the option at its default.
abbrev threads_def : Defs ℕ
threads_def =
    def_next (def (codes "threads") flags_none (def_opt none none int_type (lng (pos 9))) none)
      def_end

abbrev filled : Config ℕ
filled = config [] flags_none 0 0 (
    body_file (
      node
        (config (codes "threads") flags_none 0 0
          (body_opt (record { type = int_type; values = vals (item (lng (pos 9)) ∷ []) })))
        end))

filled_run : defaults_of same empty threads_def ≡ ok filled
unfolding defaults_of defaults default_def default_body default_opt set_default find_opt add_opt
    issec opt_flags opts_of with_opts opt_of with_opt body_of name_of type_of body_type create
    opt_create to_list of_list read_lng setnint expect_type inst_set setn_cmn getn_cmn getn_marks
    count place step_back past advance grown put_value entry new_value opt_vals value_type
    same_value_type same_type sec_setn_cmn sec_getn_cmn count_opts marks_of put_opt insert_opt
filled_run = refl

empty_opts : opts_of (body_of empty) ≡ ok []
unfolding opts_of body_of to_list
empty_opts = refl

defaults_of-held_example :
    (cells' : List (Cell (Config ℕ))) × (opts_of (body_of filled) ≡ ok cells')
    × Keeps [] cells'
    × AreHeld threads_def cells'
defaults_of-held_example =
    defaults_of-held same empty threads_def filled [] empty_opts (omega arith, tt) filled_run
