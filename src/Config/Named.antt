-- ===== src/Config/Named.antt =====
-- Names among the options of a section (src/config.c): what `vt_config_defaults` finds and keeps.
use valiant.Prelude.{
  ℕ, zero, suc, ◌+◌, ◌≡◌, inl, inr, sym, ap, subst, ◌∙◌, Bool, true, false, Option, some, List, [],
  ◌∷◌, ◌++◌, Bytes, strcmp_refl, set, take, get_elem?, Bool-cases, arith,
}
use valiant.Config.Types.{ok, Cell, item, hole, deref}
use valiant.Config.Tree.{Config, name_of}
use valiant.Config.Items.{same_name}
use valiant.Config.Defaults.{find_opt}
use valiant.Config.Found.{strcasecmp_refl}

pub same_name_refl : (nocase : Bool) (name : Bytes) → same_name nocase name name ≡ true
unfolding same_name
same_name_refl true name = strcasecmp_refl name
same_name_refl false name = strcmp_refl name

module _ {Double : Type 0} where
  -- An entry points to an option or a section with the name.
  pub data Holds (nocase : Bool) (name : Bytes) : List (Cell (Config Double)) → Type 0 where
    here :
        (o : Config Double) (cells : List (Cell (Config Double)))
        → same_name nocase (name_of o) name ≡ true
        → Holds nocase name (item o ∷ cells)
    there :
        (c : Cell (Config Double)) {cells : List (Cell (Config Double))}
        → Holds nocase name cells
        → Holds nocase name (c ∷ cells)

  item_inj :
      (p o : Config Double)
      → Path (Option (Cell (Config Double))) (some (item p)) (some (item o))
      → p ≡ o
  item_inj p o h = cc

  -- The entry at a position.
  abbrev pub Stands : Config Double → ℕ → List (Cell (Config Double)) → Type 0
  Stands o at cells = get_elem? cells at ≡ some (item o)

  pub Holds-append :
      {nocase : Bool} {name : Bytes} {cells : List (Cell (Config Double))}
      (more : List (Cell (Config Double)))
      → Holds nocase name cells
      → Holds nocase name (cells ++ more)
  Holds-append more (here o cells e) = here o (cells ++ more) e
  Holds-append more (there c h) = there c (Holds-append more h)

  pub Holds-end :
      {nocase : Bool} {name : Bytes} (cells : List (Cell (Config Double))) (o : Config Double)
      → same_name nocase (name_of o) name ≡ true
      → Holds nocase name (cells ++ item o ∷ [])
  Holds-end [] o e = here o [] e
  Holds-end (c ∷ cells) o e = there c (Holds-end cells o e)

  pub Stands-Holds :
      {nocase : Bool} {name : Bytes} (o : Config Double) (at : ℕ)
      (cells : List (Cell (Config Double)))
      → Stands o at cells
      → same_name nocase (name_of o) name ≡ true
      → Holds nocase name cells
  Stands-Holds o at [] s e = cc
  Stands-Holds {nocase} {name} o zero (c ∷ cells) s e =
      let is : c ≡ item o = cc in
      subst (λ k. Holds nocase name (k ∷ cells)) (sym is) (here o cells e)
  Stands-Holds o (suc at) (c ∷ cells) s e = there c (Stands-Holds o at cells s e)

  -- An option that is changed in place keeps its name.
  pub Holds-set :
      {nocase : Bool} {name : Bytes} (o o' : Config Double) (at : ℕ)
      {cells : List (Cell (Config Double))}
      → Stands o at cells
      → name_of o' ≡ name_of o
      → Holds nocase name cells
      → Holds nocase name (set cells at (item o'))
  Holds-set {nocase} {name} o o' zero s n (here p cells e) =
      let is : p ≡ o = item_inj p o s in
      here o' cells (subst (λ k. same_name nocase k name ≡ true) (ap name_of is ∙ sym n) e)
  Holds-set o o' (suc at) s n (here p cells e) = here p _ e
  Holds-set o o' zero s n (there c h) = there (item o') h
  Holds-set o o' (suc at) s n (there c h) = there c (Holds-set o o' at s n h)

  pub Stands-take :
      (o : Config Double) (n at : ℕ) (cells : List (Cell (Config Double)))
      → Stands o at (take n cells)
      → Stands o at cells
  Stands-take o zero at cells s = cc
  Stands-take o (suc n) at [] s = cc
  Stands-take o (suc n) zero (c ∷ cells) s = s
  Stands-take o (suc n) (suc at) (c ∷ cells) s = Stands-take o n at cells s

  pub find_opt-Stands :
      (nocase : Bool) (name : Bytes) (k at : ℕ) (o : Config Double)
      (cells : List (Cell (Config Double)))
      → find_opt nocase name k cells ≡ ok (some (at, o))
      → (i : ℕ) × (at ≡ k + i) × Stands o i cells × (same_name nocase (name_of o) name ≡ true)
  unfolding find_opt deref
  find_opt-Stands nocase name k at o [] h = cc
  find_opt-Stands nocase name k at o (hole g ∷ cells) h = cc
  find_opt-Stands nocase name k at o (item p ∷ cells) h =
      elim (Bool-cases (same_name nocase (name_of p) name)) [
        | inl e ↦
            let h' : ok (some (k, p)) ≡ ok (some (at, o)) = rw e at h in
            let is : p ≡ o = cc in
            let there : k ≡ at = cc in
            (
              0,
              omega arith,
              ap (λ t. some (item t)) is,
              subst (λ t. same_name nocase (name_of t) name ≡ true) is e,
            )
        | inr e ↦
            let (i, l, s, n) = find_opt-Stands nocase name (suc k) at o cells (rw e at h) in
            (suc i, omega (arith, l), s, n)
      ]
