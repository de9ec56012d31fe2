-- ===== src/Worker/Distinct.antt =====
-- Lists of distinct positions, as the array of the worker holds them (src/worker.c).
use valiant.Prelude.{
  ==_iff, ℕ, zero, suc, ◌≤◌, ◌<◌, ◌≡◌, refl, subst, false, List, [], ◌∷◌, ◌==◌, if◌then◌else◌,
  arith, length, All, Bool-cases, inl, inr,
}
use valiant.Worker.{listed}

-- No position comes twice.
unfoldable pub Unique : List ℕ → Type 0
Unique [] = Unit
Unique (d ∷ ds) = (listed d ds ≡ false) × Unique ds

without : ℕ → List ℕ → List ℕ
without n [] = []
without n (d ∷ ds) = let rest = without n ds in if d == n then rest else d ∷ rest

listed-without : (p n : ℕ) (ds : List ℕ) → listed p ds ≡ false → listed p (without n ds) ≡ false
unfolding listed without
listed-without p n [] h = refl
listed-without p n (d ∷ ds) h = ground (arith, listed-without p n ds)

without-Unique : (n : ℕ) (ds : List ℕ) → Unique ds → Unique (without n ds)
unfolding Unique without
without-Unique n [] u = tt
without-Unique n (d ∷ ds) (h, u) = elim (Bool-cases (d == n)) [
  | inl e ↦ rw (without, e) (without-Unique n ds u)
  | inr e ↦ rw (without, e) (listed-without d n ds h, without-Unique n ds u)
]

length-without_absent :
    (n : ℕ) (ds : List ℕ) → listed n ds ≡ false → length (without n ds) ≡ length ds
unfolding listed without
length-without_absent n [] h = refl
length-without_absent n (d ∷ ds) h = ground (arith, length-without_absent n ds)

length-without : (n : ℕ) (ds : List ℕ) → Unique ds → length ds ≤ suc (length (without n ds))
unfolding Unique without
length-without n [] u = omega arith
length-without n (d ∷ ds) (h, u) = elim (Bool-cases (d == n)) [
  | inl e ↦
      rw (without, e)
        (omega (
          arith,
          length-without_absent n ds (subst (λ k. listed k ds ≡ false) ((==_iff d n).0 e) h),
        ))
  | inr e ↦ rw (without, e) (omega (arith, length-without n ds u))
]

without-lt : (n : ℕ) (ds : List ℕ) → All (λ d. d < suc n) ds → All (λ d. d < n) (without n ds)
unfolding without
without-lt n [] a = tt
without-lt n (d ∷ ds) (lt, a) = elim (Bool-cases (d == n)) [
  | inl e ↦ rw (without, e) (without-lt n ds a)
  | inr e ↦ rw (without, e) (ground arith, without-lt n ds a)
]

-- Distinct positions below `n` are no more than `n`.
pub length-Unique : (n : ℕ) (ds : List ℕ) → Unique ds → All (λ d. d < n) ds → length ds ≤ n
length-Unique n [] u a = omega arith
length-Unique zero (d ∷ ds) u (lt, a) = absurd (omega arith)
length-Unique (suc n) (d ∷ ds) u a = omega (
  arith,
  length-without n (d ∷ ds) u,
  length-Unique n (without n (d ∷ ds)) (without-Unique n (d ∷ ds) u) (without-lt n (d ∷ ds) a),
)
