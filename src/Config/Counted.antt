-- ===== src/Config/Counted.antt =====
-- What `vt_config_sec_getn_cmn` counts among the options of a section (src/config.c).
use valiant.Prelude.{
  ℕ, zero, suc, ◌≤◌, ◌≡◌, ◌⊎◌, inl, inr, refl, sym, ap, ◌∙◌, Bool, true, false, List, [], ◌∷◌, ◌++◌,
  map, if◌then◌else◌, strcasecmp, length, All, Bool-cases, arith,
}
use valiant.Config.Types.{
  Outcome, ok, err, fault, ◌>>=◌, Cell, item, hole, junk, deref, ConfigType, type_none, type_sec,
  type_opt, same_type,
}
use valiant.Config.Tree.{Config, name_of, type_of}
use valiant.Config.Options.{count, advance}
use valiant.Config.Sections.{Key, nonempty, counts, count_opts, mark, marks_of}

pub same_type_refl : (t : ConfigType) → same_type t t ≡ true
unfolding same_type
same_type_refl type_none = refl
same_type_refl ConfigType.type_file = refl
same_type_refl type_sec = refl
same_type_refl type_opt = refl

-- The end of a bind that succeeds.
pub >>=-eq_ok {ℓ κ} :
    {A : Type ℓ} {B : Type κ} (r : Outcome A) (f : A → Outcome B) {b : B}
    → (r >>= f) ≡ ok b
    → (a : A) × (r ≡ ok a) × (f a ≡ ok b)
>>=-eq_ok (ok a) f h = (a, refl, h)
>>=-eq_ok err f h = cc
>>=-eq_ok fault f h = cc
>>=-eq_ok Outcome.out_of_fuel f h = cc

module _ {Double : Type 0} where
  -- Nothing is found behind an entry that is indeterminate.
  pub count_opts-junk :
      (key : Key) (compare : Bool) (seen : ConfigType) (l : List (Cell (Config Double))) (n : ℕ)
      → count_opts key compare seen (l ++ hole junk ∷ []) ≡ ok n
      → ⊥
  unfolding count_opts deref
  count_opts-junk key compare seen [] n h = cc
  count_opts-junk key compare seen (hole k ∷ l) n h = cc
  count_opts-junk key compare seen (item o ∷ l) n h =
      let ((m, seen'), e, f) = >>=-eq_ok (counts key compare seen o) _ h in
      let (n', g, i) = >>=-eq_ok (count_opts key compare seen' (l ++ hole junk ∷ [])) _ f in
      count_opts-junk key compare seen' l n' g

  pub marks_of-item :
      (key : Key) (compare : Bool) (os : List (Config Double))
      → marks_of key compare (map item os) ≡ ok (map (mark key compare) os)
  unfolding marks_of deref
  marks_of-item key compare [] = refl
  marks_of-item key compare (o ∷ os) = rw (marks_of-item key compare os) refl

-- Every option with the name has the type.
abbrev pub AreTyped : {Double : Type 0} → Key → List (Config Double) → Type 0
AreTyped key os = All (λ o. strcasecmp (name_of o) key.name ≡ true → type_of o ≡ key.type) os

module _ {Double : Type 0} (key : Key) (typed : same_type key.type type_none ≡ false)
    (named : nonempty key.name ≡ true) where
  seen_type :
      (seen : ConfigType) (o : Config Double)
      → (seen ≡ type_none) ⊎ (seen ≡ key.type)
      → type_of o ≡ key.type
      → (if same_type seen type_none then type_of o else seen) ≡ key.type
  unfolding same_type
  seen_type seen o (inl n) k = rw n k
  seen_type seen o (inr n) k = rw (n, typed) refl

  counts-mark :
      (seen : ConfigType) (o : Config Double)
      → (seen ≡ type_none) ⊎ (seen ≡ key.type)
      → (strcasecmp (name_of o) key.name ≡ true → type_of o ≡ key.type)
      → (seen' : ConfigType) × (counts key true seen o ≡ ok (mark key true o, seen'))
        × ((seen' ≡ type_none) ⊎ (seen' ≡ key.type))
  unfolding counts mark
  counts-mark seen o s t = elim (Bool-cases (strcasecmp (name_of o) key.name)) [
    | inl e ↦
        let k = t e in
        let marked : mark key true o ≡ true =
          rw (named, e, typed, k, same_type_refl key.type) refl in
        let counted : counts key true seen o ≡ ok (true, key.type) =
          rw (e, seen_type seen o s k, k, same_type_refl key.type, typed) refl in
        (key.type, counted ∙ ap (λ b. ok (b, key.type)) (sym marked), inr refl)
    | inr e ↦ (seen, rw (e, named) refl, s)
  ]

  pub count_opts-count :
      (seen : ConfigType) (os : List (Config Double))
      → (seen ≡ type_none) ⊎ (seen ≡ key.type)
      → AreTyped key os
      → count_opts key true seen (map item os) ≡ ok (count (map (mark key true) os))
  unfolding count_opts deref count
  count_opts-count seen [] s t = refl
  count_opts-count seen (o ∷ os) s t =
      let (seen', e, s') = counts-mark seen o s t.0 in rw (e, count_opts-count seen' os s' t.1) refl

advance-false : (n : ℕ) (marks : List Bool) → advance n (false ∷ marks) ≤ suc (advance n marks)
unfolding advance
advance-false zero marks = omega arith
advance-false (suc n) marks = omega arith

-- The last option does not count: the one behind which `advance` stops is before it.
pub advance-count :
    (marks : List Bool) → advance (count (marks ++ false ∷ [])) (marks ++ false ∷ []) ≤ length marks
unfolding advance count
advance-count [] = omega arith
advance-count (true ∷ marks) = omega (arith, advance-count marks)
advance-count (false ∷ marks) =
    omega (
      arith,
      advance-count marks,
      advance-false (count (marks ++ false ∷ [])) (marks ++ false ∷ []),
    )
