-- ===== src/Config/Moves.antt =====
-- Arrays of pointers under `memmove` (src/config.c).
use valiant.Prelude.{
  set, ℕ, zero, suc, ◌+◌, ◌-◌, ◌/◌, ◌%◌, ◌≤◌, ◌<◌, ◌≡◌, ◌≢◌, refl, ap, subst, ◌∙◌, List, [], ◌∷◌,
  ◌++◌, ◌==◌, length, length-append, take, drop, Bool-cases, inl, inr, arith,
}
use valiant.Config.Types.{Cell, hole, junk, entry, load, memmove, memmove_bytes}

part : (n : ℕ) → (n % 8) ≢ 0 → n / 8 < n
part n h = omega arith

module _ {ℓ} {A : Type ℓ} where
  pub length-take : (d : ℕ) (l : List A) → d ≤ length l → length (take d l) ≡ d
  length-take zero l h = refl
  length-take (suc d) [] h = absurd (omega arith)
  length-take (suc d) (x ∷ l) h = ap suc (length-take d l (omega arith))

  pub length-drop : (d : ℕ) (l : List A) → length (drop d l) ≡ length l - d
  length-drop zero l = omega arith
  length-drop (suc d) [] = omega arith
  length-drop (suc d) (x ∷ l) = omega (arith, length-drop d l)

module _ {ℓ} {A : Type ℓ} where
  pub length-load : (n : ℕ) (cells : List (Cell A)) → length (load n cells) ≡ n
  unfolding load
  length-load zero cells = refl
  length-load (suc n) [] = ap suc (length-load n [])
  length-load (suc n) (c ∷ cells) = ap suc (length-load n cells)

  pub entry-set :
      (cells : List (Cell A)) (i : ℕ) (c : Cell A) → i < length cells → entry (set cells i c) i ≡ c
  unfolding entry
  entry-set [] i c h = elim h [ ]
  entry-set (x ∷ cells) zero c h = refl
  entry-set (x ∷ cells) (suc i) c h = entry-set cells i c (omega arith)

  pub entry-set_ne :
      (cells : List (Cell A)) (i j : ℕ) (c : Cell A)
      → i ≢ j
      → entry (set cells i c) j ≡ entry cells j
  unfolding entry
  entry-set_ne [] i j c h = refl
  entry-set_ne (x ∷ cells) zero zero c h = absurd (h refl)
  entry-set_ne (x ∷ cells) zero (suc j) c h = refl
  entry-set_ne (x ∷ cells) (suc i) zero c h = refl
  entry-set_ne (x ∷ cells) (suc i) (suc j) c h = entry-set_ne cells i j c (λ e. h (ap suc e))

  pub entry-take_append :
      (d : ℕ) (cells rest : List (Cell A)) (j : ℕ)
      → j < d
      → j < length cells
      → entry (take d cells ++ rest) j ≡ entry cells j
  unfolding entry
  entry-take_append zero cells rest j h k = elim h [ ]
  entry-take_append (suc d) [] rest j h k = elim k [ ]
  entry-take_append (suc d) (c ∷ cells) rest zero h k = refl
  entry-take_append (suc d) (c ∷ cells) rest (suc j) h k =
      entry-take_append d cells rest j (omega arith) (omega arith)

  pub lt-length-take :
      (d : ℕ) (cells rest : List (Cell A)) (j : ℕ)
      → j < d
      → j < length cells
      → j < length (take d cells ++ rest)
  lt-length-take zero cells rest j h k = elim h [ ]
  lt-length-take (suc d) [] rest j h k = elim k [ ]
  lt-length-take (suc d) (c ∷ cells) rest zero h k = omega arith
  lt-length-take (suc d) (c ∷ cells) rest (suc j) h k =
      omega (arith, lt-length-take d cells rest j (omega arith) (omega arith))

  pub take-append_nil : (d : ℕ) (cells : List (Cell A)) → take d cells ++ [] ≡ take d cells
  take-append_nil zero cells = refl
  take-append_nil (suc d) [] = refl
  take-append_nil (suc d) (c ∷ cells) = ap (λ l. c ∷ l) (take-append_nil d cells)

  pub entry-memmove :
      (cells : List (Cell A)) (dst src n j : ℕ)
      → j < dst
      → j < length cells
      → (entry (memmove cells dst src n) j ≡ entry cells j) × (j < length (memmove cells dst src n))
  unfolding memmove
  entry-memmove cells dst src n j h k =
      let rest = load n (drop src cells) ++ drop (dst + n) cells in
      (entry-take_append dst cells rest j h k, lt-length-take dst cells rest j h k)

  -- What lies before the target stays as it is.
  pub entry-memmove_bytes :
      (cells : List (Cell A)) (dst src n j : ℕ)
      → j < dst
      → j < length cells
      → (entry (memmove_bytes cells dst src n) j ≡ entry cells j)
        × (j < length (memmove_bytes cells dst src n))
  unfolding memmove_bytes
  entry-memmove_bytes cells dst src n j h k =
      let moved = memmove cells dst src (n / 8) in
      let (same, within) = entry-memmove cells dst src (n / 8) j h k in
      let rest = hole junk ∷ drop (dst + n / 8 + 1) moved in
      let lt : j < dst + n / 8 = omega arith in
      elim (Bool-cases (n % 8 == 0)) [
        | inl e ↦ rw e (same, within)
        | inr e ↦ rw e (
          entry-take_append (dst + n / 8) moved rest j lt within ∙ same,
          lt-length-take (dst + n / 8) moved rest j lt within,
        )
      ]

  pub entry-take :
      (d : ℕ) (cells : List (Cell A)) (j : ℕ)
      → j < d
      → j < length cells
      → entry (take d cells) j ≡ entry cells j
  entry-take d cells j h k =
      subst (λ l. entry l j ≡ entry cells j) (take-append_nil d cells)
        (entry-take_append d cells [] j h k)

  pub length-memmove :
      (cells : List (Cell A)) (dst src n : ℕ)
      → dst + n ≤ length cells
      → length (memmove cells dst src n) ≡ length cells
  unfolding memmove
  length-memmove cells dst src n h =
      let rest = load n (drop src cells) ++ drop (dst + n) cells in
      omega (
        arith,
        length-append (take dst cells) rest,
        length-append (load n (drop src cells)) (drop (dst + n) cells),
        length-take dst cells (omega arith),
        length-load n (drop src cells),
        length-drop (dst + n) cells,
      )

  pub length-memmove_bytes :
      (cells : List (Cell A)) (dst src n : ℕ)
      → dst + n ≤ length cells
      → length (memmove_bytes cells dst src n) ≡ length cells
  unfolding memmove_bytes
  length-memmove_bytes cells dst src n h =
      let moved = memmove cells dst src (n / 8) in
      let k = dst + n / 8 in
      let l = length-memmove cells dst src (n / 8) (omega arith) in
      elim (Bool-cases (n % 8 == 0)) [
        | inl e ↦ rw e l
        | inr e ↦ rw e (
            omega (
              arith,
              length-append (take k moved) (hole junk ∷ drop (k + 1) moved),
              length-take k moved (omega arith),
              length-drop (k + 1) moved,
              l,
              part n (ground arith),
            ))
      ]
