-- ===== src/Config/Titles.antt =====
-- Titles of the sections with one name (src/config.c, `vt_config_validate`).
use valiant.Prelude.{
  ℕ, zero, suc, ◌≡◌, ◌⊎◌, ◌↔◌, inl, inr, refl, sym, ◌∙◌, Bool, true, false, List, [], ◌∷◌, map,
  Bytes, All, Bool-cases,
}
use valiant.Config.Types.{ok, err, item, deref}
use valiant.Config.Tree.{Config}
use valiant.Config.Items.{same_name, title_of}
use valiant.Config.Validate.{is_named, scan_titles, check_titles}

clash : {b : Bool} → b ≡ true → b ≡ false → ⊥
clash p q = cc

module _ {Double : Type 0} (nocase : Bool) (name : Bytes) where
  -- No section with the name among `os` has the title.
  abbrev pub IsFresh : Bytes → List (Config Double) → Type 0
  IsFresh title os =
      All (λ o. is_named nocase name o ≡ true → same_name nocase title (title_of o) ≡ false) os

  -- No two sections with the name have one title.
  abbrev pub AreDistinct : List (Config Double) → Type 0
  AreDistinct [] = Unit
  AreDistinct (o ∷ os) = (is_named nocase name o ≡ true → IsFresh (title_of o) os) × AreDistinct os

  -- The first `n` have another name.
  abbrev AreOthers : ℕ → List (Config Double) → Type 0
  AreOthers zero os = Unit
  AreOthers (suc n) [] = Unit
  AreOthers (suc n) (o ∷ os) = (is_named nocase name o ≡ false) × AreOthers n os

  scan_titles-cases :
      (title : Bytes) (os : List (Config Double))
      → ((scan_titles nocase name title (map item os) ≡ err) × ¬ IsFresh title os)
        ⊎ ((n : ℕ) × (scan_titles nocase name title (map item os) ≡ ok n)
            × IsFresh title os
            × AreOthers n os)
  unfolding scan_titles deref
  scan_titles-cases title [] = inr (0, refl, tt, tt)
  scan_titles-cases title (o ∷ os) = elim (Bool-cases (is_named nocase name o)) [
    | inl e ↦ elim (Bool-cases (same_name nocase title (title_of o))) [
      | inl f ↦ inl (rw (e, f) refl, λ h. clash f (h.0 e))
      | inr f ↦ elim (scan_titles-cases title os) [
        | inl (bad, not_fresh) ↦ inl (rw (e, f, bad) refl, λ h. not_fresh h.1)
        | inr (n, good, fresh, others) ↦ inr (0, rw (e, f, good) refl, (λ _. f, fresh), tt)
      ]
    ]
    | inr e ↦ elim (scan_titles-cases title os) [
      | inl (bad, not_fresh) ↦ inl (rw (e, bad) refl, λ h. not_fresh h.1)
      | inr (n, good, fresh, others) ↦
          inr (suc n, rw (e, good) refl, (λ k. absurd (clash k e), fresh), (e, others))
    ]
  ]

  check_titles-skip :
      (skip : ℕ) (os : List (Config Double))
      → AreOthers skip os
      → (check_titles nocase name skip (map item os) ≡ ok tt) ↔ AreDistinct os
  unfolding check_titles deref
  check_titles-skip skip [] h = (λ _. tt, λ _. refl)
  check_titles-skip (suc skip) (o ∷ os) h =
      let (to, from) = check_titles-skip skip os h.1 in
      (λ e. (λ k. absurd (clash k h.0), to e), λ d. from d.1)
  check_titles-skip zero (o ∷ os) h = elim (Bool-cases (is_named nocase name o)) [
    | inl e ↦ elim (scan_titles-cases (title_of o) os) [
      | inl (bad, not_fresh) ↦
          let fails : check_titles nocase name 0 (map item (o ∷ os)) ≡ err = rw (e, bad) refl in
          (λ k. cc, λ d. absurd (not_fresh (d.0 e)))
      | inr (n, good, fresh, others) ↦
          let (to, from) = check_titles-skip n os others in
          let goes : check_titles nocase name 0 (map item (o ∷ os))
              ≡ check_titles nocase name n (map item os) =
            rw (e, good) refl in
          (λ k. (λ _. fresh, to (sym goes ∙ k)), λ d. goes ∙ from d.1)
    ]
    | inr e ↦
        let (to, from) = check_titles-skip zero os tt in
        let goes : check_titles nocase name 0 (map item (o ∷ os))
            ≡ check_titles nocase name 0 (map item os) =
          rw e refl in
        (λ k. (λ j. absurd (clash j e), to (sym goes ∙ k)), λ d. goes ∙ from d.1)
  ]

  -- The loops over the titles succeed exactly when no two sections with the name have one title,
  -- wherever they stand among the options.
  pub check_titles_iff :
      (os : List (Config Double))
      → (check_titles nocase name 0 (map item os) ≡ ok tt) ↔ AreDistinct os
  check_titles_iff os = check_titles-skip 0 os tt
