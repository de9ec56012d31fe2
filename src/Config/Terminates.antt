-- ===== src/Config/Terminates.antt =====
-- The end of the parser of src/config.c.
use valiant.Prelude.{
  ℕ, zero, suc, ◌+◌, ◌≤◌, ◌<◌, ◌≡◌, subst, refl, Bool, false, Option, none, some, if◌then◌else◌,
  Bytes, Bool-cases, inl, inr, arith,
}
use valiant.Prelude.Int.{negsuc}
use valiant.Config.Types.{Outcome, Flags, Value, str, ValueType}
use valiant.Config.Tree.{Config, Def, def, def_opt, def_sec, Defs, body_of}
use valiant.Config.Scanner.{
  Token, eof, comment_single, comment_multi, right_curly, value, is_end, Scanner, Advances,
  plain_def,
}
use valiant.Config.Items.{expect_equal_sign, find_def}
use valiant.Config.Parse.{parse_option, parse_section, declare, parse_round, inspect, parse}
use valiant.Config.Settled.{
  if-Settles, with_ok, sec_setnopt-Settles, sec_setnsec-Settles, opt_at-Settles, update_opt-Settles,
  undeclared-Settles, opts_of-Settles, opt_of-Settles,
}
use valiant.Config.Ends.{
  Ends, ends_ok, ends_err, Ends-mono, if-Ends, >>=-Ends, after, parse_opt-Ends, parse_sec-Ends,
}

module _ {Double : Type 0} (same : Value Double → Value Double → Bool) (S : Scanner Double)
    (A : Advances S) where
  abbrev left : Config Double × S.Lexer → ℕ
  left r = A.remaining r.1

  parse_option-Ends :
      (fuel : ℕ) (sec : Config Double) (name : Bytes) (flags : Flags) (dquot squot : Option Bytes)
      (type : ValueType) (l : S.Lexer)
      → A.remaining l < fuel
      → Ends
          (λ r. A.remaining r.2)
          (A.remaining l)
          (parse_option same S fuel sec name flags dquot squot type l)
  unfolding parse_option
  parse_option-Ends fuel sec name flags dquot squot type l h =
      after (sec_setnopt-Settles sec name flags (negsuc 0)) (λ made.
        after (opt_at-Settles made.0 made.1) (λ o. after (opt_of-Settles o) (λ opt.
          >>=-Ends (parse_opt-Ends same S A fuel _ flags.list expect_equal_sign _ l h)
            (λ read k. after (update_opt-Settles made.0 made.1 _) (λ sec'. ends_ok _ k)))))

  parse_section-Ends :
      (fuel : ℕ) (inner : Config Double → S.Lexer → Outcome (Config Double × S.Lexer))
      (sec : Config Double) (name : Bytes) (flags : Flags) (title : Option Bytes) (l : S.Lexer)
      → ((s : Config Double) (l' : S.Lexer)
          → A.remaining l' < A.remaining l
          → Ends left (suc (A.remaining l')) (inner s l'))
      → A.remaining l < fuel
      → Ends left (A.remaining l) (parse_section same S fuel inner sec name flags title l)
  unfolding parse_section
  parse_section-Ends fuel inner sec name flags title l g h =
      after (sec_setnsec-Settles sec name flags (negsuc 0)) (λ made.
        after (opt_at-Settles made.0 made.1) (λ o.
          >>=-Ends
            (parse_sec-Ends same S A fuel _ flags.title inner (A.remaining l) g _ l h (omega arith))
            (λ read k. after (update_opt-Settles made.0 made.1 _) (λ sec'. ends_ok _ k))))

  -- The fuel that a token and what is left behind it are given.
  abbrev need : Token Double → S.Lexer → ℕ
  need token l = if is_end token then 1 else 2 + A.remaining l

  need-le : (t : Token Double) (l : S.Lexer) → need t l ≤ 2 + A.remaining l
  need-le t l = ground arith

  need-fed :
      (token : Token Double) (l : S.Lexer) (fuel : ℕ)
      → is_end token ≡ false
      → need token l ≤ suc fuel
      → A.remaining l < fuel
  need-fed token l fuel e h =
      let k : 2 + A.remaining l ≤ suc fuel =
        subst (λ b. (if b then 1 else 2 + A.remaining l) ≤ suc fuel) e h in
      omega (arith, k)

  need-next : (l : S.Lexer) → need (S.next plain_def l).0 (S.next plain_def l).1 ≤ 1 + A.remaining l
  need-next l = elim (Bool-cases (is_end (S.next plain_def l).0)) [
    | inl e ↦ rw e (omega arith)
    | inr e ↦ rw e (omega (arith, A.advances plain_def l e))
  ]

  declare-Ends :
      (fuel : ℕ)
      (again_token : Config Double → Token Double → S.Lexer → Outcome (Config Double × S.Lexer))
      (again : Config Double → S.Lexer → Outcome (Config Double × S.Lexer))
      (inner : Defs Double → Config Double → S.Lexer → Outcome (Config Double × S.Lexer))
      (sec : Config Double) (name : Bytes) (d : Option (Def Double)) (l : S.Lexer)
      → A.remaining l < fuel
      → ((s : Config Double) (t : Token Double) (l' : S.Lexer)
          → A.remaining l' < A.remaining l
          → Ends left (suc (A.remaining l)) (again_token s t l'))
      → ((s : Config Double) (l' : S.Lexer)
          → A.remaining l' < A.remaining l
          → Ends left (suc (A.remaining l)) (again s l'))
      → ((ds : Defs Double) (s : Config Double) (l' : S.Lexer)
          → A.remaining l' < A.remaining l
          → Ends left (suc (A.remaining l')) (inner ds s l'))
      → Ends left (suc (A.remaining l)) (declare same S fuel again_token again inner sec name d l)
  unfolding declare
  declare-Ends fuel again_token again inner sec name none l h t a i = ends_err
  declare-Ends fuel again_token again inner sec name (some (def n flags (def_sec title defs) check))
        l h t a i =
      after (opts_of-Settles (body_of sec)) (λ cells.
        after (if-Settles flags.multi (with_ok tt) (undeclared-Settles flags.nocase n cells)) (λ u.
          >>=-Ends (parse_section-Ends fuel (inner defs) sec name _ title l (i defs) h)
            (λ read k. a read.0 read.1 k)))
  declare-Ends fuel again_token again inner sec name
        (some (def n flags (def_opt dquot squot type v) check)) l h t a i =
      after (opts_of-Settles (body_of sec)) (λ cells.
        after (undeclared-Settles flags.nocase n cells) (λ u.
          >>=-Ends (parse_option-Ends fuel sec name _ dquot squot type l h)
            (λ read k. if-Ends flags.list (t read.1 read.0 read.2 k) (a read.1 read.2 k))))

  parse_round-Ends :
      (again : Config Double → S.Lexer → Outcome (Config Double × S.Lexer))
      (declared : Bytes → Outcome (Config Double × S.Lexer)) (sec : Config Double)
      (token : Token Double) (l : S.Lexer)
      → (is_end token ≡ false → Ends left (suc (A.remaining l)) (again sec l))
      → (is_end token ≡ false → (name : Bytes) → Ends left (suc (A.remaining l)) (declared name))
      → Ends left (suc (A.remaining l)) (parse_round same S again declared sec token l)
  unfolding parse_round is_end
  parse_round-Ends again declared sec eof l a d = if-Ends _ ends_err (ends_ok _ (omega arith))
  parse_round-Ends again declared sec right_curly l a d =
      if-Ends _ ends_err (ends_ok _ (omega arith))
  parse_round-Ends again declared sec comment_single l a d = a refl
  parse_round-Ends again declared sec comment_multi l a d = a refl
  parse_round-Ends again declared sec (value (str name)) l a d = d refl name
  parse_round-Ends again declared sec token l a d = ends_err

  inspect-Ends :
      (fuel : ℕ) (defs : Defs Double) (sec : Config Double) (token : Token Double) (l : S.Lexer)
      → need token l ≤ fuel
      → Ends left (suc (A.remaining l)) (inspect same S fuel defs sec token l)
  unfolding inspect
  inspect-Ends zero defs sec token l h = absurd (ground arith)
  inspect-Ends (suc fuel) defs sec token l h =
      let go = λ (ds : Defs Double) (s : Config Double) (l' : S.Lexer) (k : A.remaining l' < fuel).
        Ends-mono {left = left} {n = suc (A.remaining l')} (omega (arith, A.keeps plain_def l')) (
          inspect-Ends fuel ds s (S.next plain_def l').0 (S.next plain_def l').1
            (omega (arith, need-next l', k))) in
      let fed : is_end token ≡ false → A.remaining l < fuel = λ e. need-fed token l fuel e h in
      parse_round-Ends _ _ sec token l (λ e. go defs sec l (fed e))
        (λ e name.
          declare-Ends fuel _ _ _ sec name (find_def name defs) l (fed e)
            (λ s t l' k.
              Ends-mono (omega (arith, k))
                (inspect-Ends fuel defs s t l' (omega (arith, need-le t l', fed e, k))))
            (λ s l' k. Ends-mono (omega (arith, k)) (go defs s l' (omega (arith, fed e, k))))
            (λ ds s l' k. go ds s l' (omega (arith, fed e, k))))

-- With more fuel than the lexical analyzer has left, the parser comes to an end, whatever the
-- definitions and the file are, and no more is left than was before.
pub parse-Ends :
    {Double : Type 0} (same : Value Double → Value Double → Bool) (S : Scanner Double)
    (A : Advances S) (fuel : ℕ) (defs : Defs Double) (sec : Config Double) (l : S.Lexer)
    → A.remaining l < fuel
    → Ends (λ r. A.remaining r.1) (suc (A.remaining l)) (parse same S fuel defs sec l)
unfolding parse
parse-Ends same S A fuel defs sec l h = Ends-mono (omega (arith, A.keeps plain_def l)) (
    inspect-Ends same S A fuel defs sec (S.next plain_def l).0 (S.next plain_def l).1
      (omega (arith, need-next same S A l, h)))
