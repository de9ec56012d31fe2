-- ===== src/Config/Ends.antt =====
-- The fuel of the parser of src/config.c.
use valiant.Prelude.{ℕ, zero, suc, ◌≤◌, ◌<◌, ◌≡◌, refl, Bool, true, false, if◌then◌else◌, arith}
use valiant.Config.Types.{Outcome, ok, err, fault, ◌>>=◌, Value, str, Opt}
use valiant.Config.Tree.{Config}
use valiant.Config.Scanner.{
  Token, comment_single, comment_multi, left_curly, equal_sign, comma, value, is_end, LexerDef,
  Scanner, Advances,
}
use valiant.Config.Items.{
  Expect, expect_equal_sign, expect_comma, expect_none, opt_round, parse_opt, sec_round, parse_sec,
  with_title,
}
use valiant.Config.Settled.{Settles, with_ok, with_err, with_fault, setn_value-Settles}

-- The call does not run out of fuel, and what it leaves is below a bound.
pub data Ends {A : Type 0} (left : A → ℕ) (m : ℕ) : Outcome A → Type 0 where
  ends_ok : (a : A) → left a < m → Ends left m (ok a)
  ends_err : Ends left m err
  ends_fault : Ends left m fault

module _ {A : Type 0} {left : A → ℕ} where
  pub Ends-mono : {m n : ℕ} {r : Outcome A} → m ≤ n → Ends left m r → Ends left n r
  Ends-mono h (ends_ok a k) = ends_ok a (omega arith)
  Ends-mono h ends_err = ends_err
  Ends-mono h ends_fault = ends_fault

  pub if-Ends :
      (b : Bool) {m : ℕ} {r s : Outcome A}
      → Ends left m r
      → Ends left m s
      → Ends left m (if b then r else s)
  if-Ends true h k = h
  if-Ends false h k = k

  pub >>=-Ends :
      {B : Type 0} {left' : B → ℕ} {m n : ℕ} {r : Outcome B} {f : B → Outcome A}
      → Ends left' n r
      → ((b : B) → left' b < n → Ends left m (f b))
      → Ends left m (r >>= f)
  >>=-Ends (ends_ok a k) h = h a k
  >>=-Ends ends_err h = ends_err
  >>=-Ends ends_fault h = ends_fault

  -- a call that takes no fuel before one that does
  pub after :
      {B : Type 0} {m : ℕ} {r : Outcome B} {f : B → Outcome A}
      → Settles r
      → ((b : B) → Ends left m (f b))
      → Ends left m (r >>= f)
  after (with_ok b) h = h b
  after with_err h = ends_err
  after with_fault h = ends_fault

module _ {Double : Type 0} (same : Value Double → Value Double → Bool) (S : Scanner Double)
    (A : Advances S) where
  abbrev left_opt : Token Double × Opt Double × S.Lexer → ℕ
  left_opt r = A.remaining r.2

  abbrev left : Config Double × S.Lexer → ℕ
  left r = A.remaining r.1

  opt_round-Ends :
      (list : Bool) (again : Expect → Opt Double → Outcome (Token Double × Opt Double × S.Lexer))
      (expect : Expect) (opt : Opt Double) (token : Token Double) (l : S.Lexer) (k : ℕ)
      → (is_end token ≡ false → A.remaining l < k)
      → (is_end token ≡ false → (e : Expect) (o : Opt Double) → Ends left_opt k (again e o))
      → Ends left_opt k (opt_round same S list again expect opt token l)
  unfolding opt_round is_end
  opt_round-Ends list again expect_equal_sign opt equal_sign l k h g = g refl expect_none opt
  opt_round-Ends list again expect_comma opt comma l k h g = g refl expect_none opt
  opt_round-Ends list again expect_comma opt (value v) l k h g = ends_ok _ (h refl)
  opt_round-Ends list again expect_equal_sign opt (value v) l k h g =
      if-Ends _
        (after (setn_value-Settles same opt v)
          (λ b. if-Ends list (g refl expect_comma b.0) (ends_ok _ (h refl))))
        ends_err
  opt_round-Ends list again expect_none opt (value v) l k h g =
      if-Ends _
        (after (setn_value-Settles same opt v)
          (λ b. if-Ends list (g refl expect_comma b.0) (ends_ok _ (h refl))))
        ends_err
  opt_round-Ends list again expect opt token l k h g = ends_err

  -- `vt_config_parse_opt` leaves less than it was given.
  pub parse_opt-Ends :
      (fuel : ℕ) (d : LexerDef) (list : Bool) (expect : Expect) (opt : Opt Double) (l : S.Lexer)
      → A.remaining l < fuel
      → Ends left_opt (A.remaining l) (parse_opt same S fuel d list expect opt l)
  unfolding parse_opt
  parse_opt-Ends zero d list expect opt l h = absurd (omega arith)
  parse_opt-Ends (suc fuel) d list expect opt l h =
      let l' = (S.next d l).1 in
      opt_round-Ends list _ expect opt (S.next d l).0 l' (A.remaining l)
        (λ e. omega (arith, A.advances d l e))
        (λ e x o.
          Ends-mono (omega (arith, A.advances d l e))
            (parse_opt-Ends fuel d list x o l' (omega (arith, A.advances d l e))))

  sec_round-Ends :
      (title : Bool) (again inner : Config Double → Outcome (Config Double × S.Lexer))
      (sec : Config Double) (token : Token Double) (k : ℕ)
      → (is_end token ≡ false → (s : Config Double) → Ends left k (again s))
      → (is_end token ≡ false → (s : Config Double) → Ends left k (inner s))
      → Ends left k (sec_round same S title again inner sec token)
  unfolding sec_round is_end
  sec_round-Ends title again inner sec comment_single k g h = g refl sec
  sec_round-Ends title again inner sec comment_multi k g h = g refl sec
  sec_round-Ends title again inner sec left_curly k g h = if-Ends _ ends_err (h refl sec)
  sec_round-Ends title again inner sec (value (str t)) k g h =
      if-Ends _ (g refl (with_title sec t)) ends_err
  sec_round-Ends title again inner sec token k g h = ends_err

  -- `vt_config_parse_sec` leaves less than it was given, where `vt_config_parse` does not leave more.
  pub parse_sec-Ends :
      (fuel : ℕ) (d : LexerDef) (title : Bool)
      (inner : Config Double → S.Lexer → Outcome (Config Double × S.Lexer)) (m : ℕ)
      → ((s : Config Double) (l' : S.Lexer)
          → A.remaining l' < m
          → Ends left (suc (A.remaining l')) (inner s l'))
      → (sec : Config Double) (l : S.Lexer) → A.remaining l < fuel
      → A.remaining l ≤ m
      → Ends left (A.remaining l) (parse_sec same S fuel d title inner sec l)
  unfolding parse_sec
  parse_sec-Ends zero d title inner m g sec l h n = absurd (omega arith)
  parse_sec-Ends (suc fuel) d title inner m g sec l h n =
      let l' = (S.next d l).1 in
      let lt = A.advances d l in
      sec_round-Ends title _ _ sec (S.next d l).0 (A.remaining l)
        (λ e s.
          Ends-mono (omega (arith, lt e)) (
            parse_sec-Ends fuel d title inner m g s l' (omega (arith, lt e)) (omega (arith, lt e))))
        (λ e s. Ends-mono (omega (arith, lt e)) (g s l' (omega (arith, lt e))))
