-- ===== src/Rbl/Heaviest.antt =====
-- The weight that `vt_rbl_check` reports (src/rbl.c).
use valiant.Prelude.{
  ℕ, ◌≡◌, refl, Bool, true, false, Option, none, some, List, [], ◌∷◌, if◌then◌else◌, arith, All,
  Option-cases, Bool-cases, inl, inr, ◌⊎◌,
}
use valiant.Prelude.Floats.{Floats, IsOrdered}
use valiant.Results.{Result, update}
use valiant.BackOff.{State}
use valiant.Rbl.{Weight, netdb_success, in_network, heavier, heaviest_of, heaviest, check}

-- There is a heaviest weight, and it is no less than `w`.
unfoldable pub AtLeast : (F : Floats) → Option F.Float → F.Float → Type 0
AtLeast F none w = ⊥
AtLeast F (some h) w = F.less h w ≡ false

-- Some entry of a list has the property.
abbrev pub Any : {A : Type 0} → (A → Type 0) → List A → Type 0
Any P [] = ⊥
Any P (x ∷ xs) = P x ⊎ Any P xs

-- The weight is the one of a network that an address lies in.
abbrev pub Matches : (F : Floats) → List ℕ → List (Weight F) → F.Float → Type 0
Matches F addresses ws h =
    Any (λ address. Any (λ w. (in_network address w ≡ true) × (w.weight ≡ h)) ws) addresses

-- The same, where there is a weight.
unfoldable pub IsFrom : (F : Floats) → List ℕ → List (Weight F) → Option F.Float → Type 0
IsFrom F addresses ws none = Unit
IsFrom F addresses ws (some h) = Matches F addresses ws h

-- What the check makes of the result.
unfoldable pub reported : {F : Floats} → Result F → ℕ → Option F.Float → Result F
reported res pos none = res
reported {F = F} res pos (some h) = update F res pos h

module _ {F : Floats} (o : IsOrdered F) where
  heavier-AtLeast : (h : Option F.Float) (w : F.Float) → AtLeast F (heavier F h w) w
  unfolding heavier AtLeast
  heavier-AtLeast none w = o.less_irrefl w
  heavier-AtLeast (some h) w = ground (arith, o.less_irrefl w)

  heavier_keeps : (h : Option F.Float) (w x : F.Float) → AtLeast F h x → AtLeast F (heavier F h w) x
  unfolding heavier AtLeast
  heavier_keeps none w x a = absurd a
  heavier_keeps (some h) w x a = ground (arith, o.less_trans h w x)

  if-AtLeast :
      (b : Bool) (h : Option F.Float) (w x : F.Float)
      → AtLeast F h x
      → AtLeast F (if b then heavier F h w else h) x
  if-AtLeast true h w x a = heavier_keeps h w x a
  if-AtLeast false h w x a = a

  heaviest_of_keeps :
      (address : ℕ) (ws : List (Weight F)) (h : Option F.Float) (x : F.Float)
      → AtLeast F h x
      → AtLeast F (heaviest_of address ws h) x
  unfolding heaviest_of
  heaviest_of_keeps address [] h x a = a
  heaviest_of_keeps address (w ∷ ws) h x a =
      heaviest_of_keeps address ws _ x (if-AtLeast (in_network address w) h w.weight x a)

  Heard : Option F.Float → ℕ → Weight F → Type 0
  Heard h address w = in_network address w ≡ true → AtLeast F h w.weight

  heaviest_of-Heard :
      (address : ℕ) (ws : List (Weight F)) (h : Option F.Float)
      → All (Heard (heaviest_of address ws h) address) ws
  unfolding heaviest_of Heard
  heaviest_of-Heard address [] h = tt
  heaviest_of-Heard address (w ∷ ws) h = (
    λ e. heaviest_of_keeps address ws _ w.weight (rw e (heavier-AtLeast h w.weight)),
    heaviest_of-Heard address ws _,
  )

  heaviest_keeps :
      (addresses : List ℕ) (ws : List (Weight F)) (h : Option F.Float) (x : F.Float)
      → AtLeast F h x
      → AtLeast F (heaviest addresses ws h) x
  unfolding heaviest
  heaviest_keeps [] ws h x a = a
  heaviest_keeps (address ∷ addresses) ws h x a =
      heaviest_keeps addresses ws _ x (heaviest_of_keeps address ws h x a)

  All-weaken :
      (h k : Option F.Float) (address : ℕ) (ws : List (Weight F))
      → ((x : F.Float) → AtLeast F h x → AtLeast F k x)
      → All (Heard h address) ws
      → All (Heard k address) ws
  unfolding Heard
  All-weaken h k address [] f a = tt
  All-weaken h k address (w ∷ ws) f (p, a) = (λ e. f w.weight (p e), All-weaken h k address ws f a)

  heaviest-Heard :
      (addresses : List ℕ) (ws : List (Weight F)) (h : Option F.Float)
      → All (λ address. All (Heard (heaviest addresses ws h) address) ws) addresses
  unfolding heaviest
  heaviest-Heard [] ws h = tt
  heaviest-Heard (address ∷ addresses) ws h = (
    All-weaken (heaviest_of address ws h) _ address ws
        (heaviest_keeps addresses ws (heaviest_of address ws h)) (heaviest_of-Heard address ws h),
    heaviest-Heard addresses ws (heaviest_of address ws h),
  )

  -- one network, for one address
  heavier-from :
      (h : Option F.Float) (w : F.Float) (k : F.Float)
      → heavier F h w ≡ some k
      → (h ≡ some k) ⊎ (w ≡ k)
  unfolding heavier
  heavier-from none w k e = inr (ground arith)
  heavier-from (some h) w k e = elim (Bool-cases (F.less h w)) [
    | inl b ↦ inr (ground (arith, b))
    | inr b ↦ inl (ground (arith, b))
  ]

  heaviest_of-from :
      (address : ℕ) (ws : List (Weight F)) (h : Option F.Float) (k : F.Float)
      → heaviest_of address ws h ≡ some k
      → (h ≡ some k) ⊎ Any (λ w. (in_network address w ≡ true) × (w.weight ≡ k)) ws
  unfolding heaviest_of
  heaviest_of-from address [] h k e = inl e
  heaviest_of-from address (w ∷ ws) h k e = elim (Bool-cases (in_network address w)) [
    | inl b ↦ elim (heaviest_of-from address ws (heavier F h w.weight) k (rw b at e)) [
      | inl f ↦ elim (heavier-from h w.weight k f) [ inl g ↦ inl g | inr g ↦ inr (inl (b, g)) ]
      | inr g ↦ inr (inr g)
    ]
    | inr b ↦ elim (heaviest_of-from address ws h k (rw b at e)) [
      | inl g ↦ inl g
      | inr g ↦ inr (inr g)
    ]
  ]

  heaviest-from :
      (addresses : List ℕ) (ws : List (Weight F)) (h : Option F.Float) (k : F.Float)
      → heaviest addresses ws h ≡ some k
      → (h ≡ some k) ⊎ Matches F addresses ws k
  unfolding heaviest
  heaviest-from [] ws h k e = inl e
  heaviest-from (address ∷ addresses) ws h k e =
      elim (heaviest-from addresses ws (heaviest_of address ws h) k e) [
        | inl f ↦ elim (heaviest_of-from address ws h k f) [ inl g ↦ inl g | inr g ↦ inr (inl g) ]
        | inr g ↦ inr (inr g)
      ]

  heaviest-IsFrom :
      (addresses : List ℕ) (ws : List (Weight F)) (h : Option F.Float)
      → heaviest addresses ws none ≡ h
      → IsFrom F addresses ws h
  unfolding IsFrom
  heaviest-IsFrom addresses ws none e = tt
  heaviest-IsFrom addresses ws (some k) e = elim (heaviest-from addresses ws none k e) [
    | inl f ↦ absurd (ground arith)
    | inr g ↦ g
  ]

  -- For an answer of the name server, and weights that are ordered (no NaN), the check reports the
  -- weight of a network that an address of the answer lies in, and that is no less than the weight of
  -- any such network; and it reports nothing, leaving the result as it is, only if there is none.
  pub check_lem :
      (addresses : List ℕ) (ws : List (Weight F)) (res : Result F) (pos : ℕ) (s : State)
      (now later : ℕ)
      → (h : Option F.Float) × (check netdb_success addresses ws res pos s now later
          ≡ some (reported res pos h, s))
        × All
            (λ address. All (λ w. in_network address w ≡ true → AtLeast F h w.weight) ws)
            addresses
        × IsFrom F addresses ws h
  unfolding check reported Heard
  check_lem addresses ws res pos s now later =
      let h = heaviest addresses ws none in
      let e : check netdb_success addresses ws res pos s now later ≡ some (reported res pos h, s) =
        elim (Option-cases h) [
          | inl k ↦ rw (check, reported, k) refl
          | inr (w, k) ↦ rw (check, reported, k) refl
        ] in
      (h, e, heaviest-Heard addresses ws none, heaviest-IsFrom addresses ws h refl)
