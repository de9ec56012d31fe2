-- ===== src/Config/Typed.antt =====
-- The values that `vt_config_parse_opt` reads (src/config.c).
use valiant.Prelude.{
  ℕ, zero, suc, ◌≤◌, ◌≡◌, ◌≢◌, inl, inr, refl, sym, ap, ◌∙◌, Bool, true, false, List, [], ◌∷◌, ◌++◌,
  map, length, All, Bool-cases, arith,
}
use valiant.Config.Types.{
  Outcome, ok, item, Value, no_value, bln, lng, dbl, str, ValueType, value_type, same_value_type,
  vals, Opt,
}
use valiant.Config.Access.{expect_type, inst_set, setnbool, setnint, setnfloat, setnstr}
use valiant.Config.Scanner.{Token, equal_sign, comma, value, LexerDef, Scanner}
use valiant.Config.Items.{
  Expect, expect_equal_sign, expect_comma, expect_none, setn_value, opt_round, parse_opt,
}
use valiant.Config.Stored.{setn_cmn-append}
use valiant.Config.Counted.{>>=-eq_ok}

append_nil {ℓ} : {A : Type ℓ} (a : List A) → a ++ [] ≡ a
append_nil [] = refl
append_nil (x ∷ a) = ap (λ t. x ∷ t) (append_nil a)

append_assoc {ℓ} : {A : Type ℓ} (a b c : List A) → (a ++ b) ++ c ≡ a ++ (b ++ c)
append_assoc [] b c = refl
append_assoc (x ∷ a) b c = ap (λ t. x ∷ t) (append_assoc a b c)

clash : {b : Bool} → b ≡ true → b ≡ false → ⊥
clash p q = cc

stored : {A B : Type 0} (p q : A × B) {r : Outcome (A × B)} → r ≡ ok p → r ≡ ok q → p.0 ≡ q.0
stored p q h k = cc

module _ {Double : Type 0} where
  -- Every value is of the type of the option.
  abbrev pub AreValues : ValueType → List (Value Double) → Type 0
  AreValues type vs = All (λ v. same_value_type type (value_type v) ≡ true) vs

  -- An option of the type that holds the values.
  abbrev pub opt_with : ValueType → List (Value Double) → Opt Double
  opt_with type xs = record { type = type; values = vals (map item xs) }

module _ {Double : Type 0} (same : Value Double → Value Double → Bool) where
  setn_value-append :
      (type : ValueType) (xs : List (Value Double)) (v : Value Double) (p : Opt Double × ℕ)
      → same_value_type type (value_type v) ≡ true
      → setn_value same (opt_with type xs) v ≡ ok p
      → p.0 ≡ opt_with type (xs ++ v ∷ [])
  unfolding setn_value setnbool setnint setnfloat setnstr value_type expect_type inst_set
  setn_value-append type xs (bln b) p t h =
      stored p _ (rw t at h) (setn_cmn-append same (opt_with type xs) xs (bln b) true false refl)
  setn_value-append type xs (lng b) p t h =
      stored p _ (rw t at h) (setn_cmn-append same (opt_with type xs) xs (lng b) true false refl)
  setn_value-append type xs (dbl b) p t h =
      stored p _ (rw t at h) (setn_cmn-append same (opt_with type xs) xs (dbl b) true false refl)
  setn_value-append type xs (str b) p t h =
      stored p _ (rw t at h) (setn_cmn-append same (opt_with type xs) xs (str b) true false refl)
  setn_value-append type xs no_value p t h = cc

module _ {Double : Type 0} (same : Value Double → Value Double → Bool) (S : Scanner Double) where
  abbrev Read : Type 0
  Read = Token Double × Opt Double × S.Lexer

  -- What was read behind `xs`: values of the type and behind them a value token; at least one value,
  -- where no comma was expected, and one where it is no list.
  abbrev Reads : (list : Bool) → Expect → ValueType → List (Value Double) → Read → Type 0
  Reads list expect type xs r =
      (ys : List (Value Double)) × AreValues type ys
      × (r.1 ≡ opt_with type (xs ++ ys))
      × (expect ≢ expect_comma → (1 ≤ length ys) × (list ≡ false → length ys ≡ 1))
      × ((v : Value Double) × (r.0 ≡ value v))

  value_round :
      (list : Bool) (again : Expect → Opt Double → Outcome Read) (type : ValueType)
      (xs : List (Value Double)) (r : Read)
      → ((e : Expect) (ys : List (Value Double))
          → list ≡ true
          → again e (opt_with type ys) ≡ ok r
          → Reads list e type ys r)
      → (v : Value Double) (l : S.Lexer)
      → opt_round same S list again expect_none (opt_with type xs) (value v) l ≡ ok r
      → Reads list expect_none type xs r
  unfolding opt_round
  value_round list again type xs r ih v l h =
      elim (Bool-cases (same_value_type type (value_type v))) [
        | inr t ↦ cc (rw t at h)
        | inl t ↦
            let (p, set, rest) = >>=-eq_ok (setn_value same (opt_with type xs) v) _ (rw t at h) in
            let o = setn_value-append same type xs v p t set in
            elim (Bool-cases list) [
              | inl is_list ↦
                  let (ys, typed, eq, some_read, tok) =
                    ih expect_comma (xs ++ v ∷ []) is_list (rw (is_list, o) at rest) in
                  (
                    v ∷ ys,
                    (t, typed),
                    eq ∙ ap (opt_with type) (append_assoc xs (v ∷ []) ys),
                    λ _. (omega arith, λ f. absurd (clash is_list f)),
                    tok,
                  )
              | inr no_list ↦
                  let got : ok (value v, p.0, l) ≡ ok r = rw no_list at rest in
                  let is : Path Read (value v, p.0, l) r = cc in
                  (
                    v ∷ [],
                    (t, tt),
                    sym (ap (λ (x : Read). x.1) is) ∙ o,
                    λ _. (omega arith, λ _. refl),
                    (v, sym (ap (λ (x : Read). x.0) is)),
                  )
            ]
      ]

  list_round :
      (list : Bool) (again : Expect → Opt Double → Outcome Read) (type : ValueType)
      (xs : List (Value Double)) (r : Read)
      → ((e : Expect) (ys : List (Value Double))
          → again e (opt_with type ys) ≡ ok r
          → Reads list e type ys r)
      → (expect : Expect) (token : Token Double) (l : S.Lexer)
      → opt_round same S list again expect (opt_with type xs) token l ≡ ok r
      → Reads list expect type xs r
  unfolding opt_round
  list_round list again type xs r ih expect_equal_sign equal_sign l h =
      let (ys, typed, eq, some_read, tok) = ih expect_none xs h in
      (ys, typed, eq, λ _. some_read (λ q. cc), tok)
  list_round list again type xs r ih expect_comma comma l h =
      let (ys, typed, eq, some_read, tok) = ih expect_none xs h in
      (ys, typed, eq, λ n. absurd (n refl), tok)
  list_round list again type xs r ih expect_comma (value v) l h =
      let is : Path Read (value v, opt_with type xs, l) r = cc in
      (
        [],
        tt,
        sym (ap (λ (x : Read). x.1) is) ∙ ap (opt_with type) (sym (append_nil xs)),
        λ n. absurd (n refl),
        (v, sym (ap (λ (x : Read). x.0) is)),
      )
  list_round list again type xs r ih expect_equal_sign (value v) l h =
      let (ys, typed, eq, some_read, tok) =
        value_round list again type xs r (λ e ys is_list. ih e ys) v l h in
      (ys, typed, eq, λ _. some_read (λ q. cc), tok)
  list_round list again type xs r ih expect_none (value v) l h =
      value_round list again type xs r (λ e ys is_list. ih e ys) v l h
  list_round list again type xs r ih expect token l h = cc

  parse_opt-Reads :
      (fuel : ℕ) (d : LexerDef) (list : Bool) (expect : Expect) (type : ValueType)
      (xs : List (Value Double)) (l : S.Lexer) (r : Read)
      → parse_opt same S fuel d list expect (opt_with type xs) l ≡ ok r
      → Reads list expect type xs r
  unfolding parse_opt
  parse_opt-Reads zero d list expect type xs l r h = cc
  parse_opt-Reads (suc fuel) d list expect type xs l r h =
      let (token, l') = S.next d l in
      list_round list (λ e o. parse_opt same S fuel d list e o l') type xs r
        (λ e ys k. parse_opt-Reads fuel d list e type ys l' r k) expect token l' h

  -- What the parser reads for an option, it stores as the type of the option says: values of the type,
  -- at least one of them, and one where the option is no list. The token that is returned is a value:
  -- a list is refused where the file, the section or anything but a value follows.
  pub parse_opt-values :
      (fuel : ℕ) (d : LexerDef) (list : Bool) (type : ValueType) (l l' : S.Lexer)
      (token : Token Double) (opt : Opt Double)
      → parse_opt same S fuel d list expect_equal_sign (opt_with type []) l ≡ ok (token, opt, l')
      → (ys : List (Value Double)) × (opt ≡ opt_with type ys)
        × AreValues type ys
        × (1 ≤ length ys)
        × (list ≡ false → length ys ≡ 1)
        × ((v : Value Double) × (token ≡ value v))
  parse_opt-values fuel d list type l l' token opt h =
      let (ys, typed, eq, some_read, tok) =
        parse_opt-Reads fuel d list expect_equal_sign type [] l (token, opt, l') h in
      let (one, exact) = some_read (λ q. cc) in (ys, eq, typed, one, exact, tok)
