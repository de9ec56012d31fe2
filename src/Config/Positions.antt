-- ===== src/Config/Positions.antt =====
-- Positions of the values of an option (src/config.c).
use valiant.Prelude.{
  ℕ, zero, suc, ◌+◌, ◌-◌, ◌≤◌, ◌≡◌, refl, ap, Bool, true, false, Option, List, ◌==◌, ltb,
  if◌then◌else◌, length, replicate, Bool-cases, inl, inr, arith,
}
use valiant.Prelude.Int.{ℤ, pos, negsuc}
use valiant.Config.Types.{Outcome, ok, err, Cell, Inst, Value, vals, Opt, opt_vals}
use valiant.Config.Options.{count, advance, past, step_back, place, getn_marks, getn_cmn}

pub count-replicate : (n : ℕ) → count (replicate n true) ≡ n
unfolding count
count-replicate zero = refl
count-replicate (suc n) = ap suc (count-replicate n)

pub advance-replicate : (k n : ℕ) → k ≤ n → advance k (replicate n true) ≡ k
unfolding advance
advance-replicate zero n h = refl
advance-replicate (suc k) zero h = absurd (omega arith)
advance-replicate (suc k) (suc n) h = ap suc (advance-replicate k n (omega arith))

-- The position that an index stands for among `n` values, `n` not 0: from the front, and the last
-- one where it is too large; from the back, and the first one where it is too small, but none at
-- `-n - 1`.
abbrev pub position : ℤ → ℕ → Outcome ℕ
position (pos i) n = ok (if ltb i n then i else n - 1)
position (negsuc k) n = if ltb k n then ok (n - 1 - k) else if k == n then err else ok 0

pub past-le : (idx : ℤ) (n : ℕ) → past idx (suc n) ≤ suc n
unfolding past
past-le (pos i) n = ground arith
past-le (negsuc k) n = ground arith

step_back-eq : (n m : ℕ) → n ≡ suc m → step_back false n ≡ ok m
unfolding step_back
step_back-eq n m e = rw (e, step_back) refl

-- From the back: `n - k` entries are gone past.
step_back-back : (k n : ℕ) → step_back false (past (negsuc k) (suc n)) ≡ position (negsuc k) (suc n)
unfolding step_back past
step_back-back k n = elim (Bool-cases (ltb (suc n) k)) [
  | inl e ↦ ground arith
  | inr e ↦ elim (Bool-cases (k == suc n)) [
    | inl f ↦ ground arith
    | inr f ↦ ground (arith, step_back-eq (suc n - k) (suc n - 1 - k))
  ]
]

step_back-past : (idx : ℤ) (n : ℕ) → step_back false (past idx (suc n)) ≡ position idx (suc n)
unfolding step_back past
step_back-past (pos i) n = ground (arith, step_back-eq (i + 1) i)
step_back-past (negsuc k) n = step_back-back k n

pub place-plain :
    (n : ℕ) (idx : ℤ) (inst : Inst)
    → inst.append ≡ false
    → place (suc n) (suc n) (replicate (suc n) true) idx inst ≡ position idx (suc n)
unfolding place
place-plain n idx inst a =
    rw (a, advance-replicate (past idx (suc n)) (suc n) (past-le idx n)) (step_back-past idx n)

-- A search among `suc n` entries without a value to compare with.
pub getn_cmn-plain :
    {Double : Type 0} (same : Value Double → Value Double → Bool) (opt : Opt Double)
    (cells : List (Cell (Value Double))) (n : ℕ) (val : Option (Value Double)) (idx : ℤ)
    (inst : Inst)
    → opt.values ≡ vals cells
    → length cells ≡ suc n
    → inst.compare ≡ false
    → inst.append ≡ false
    → getn_cmn same opt val idx inst ≡ position idx (suc n)
unfolding getn_cmn getn_marks opt_vals
getn_cmn-plain same opt cells n val idx inst e l c a =
    rw (e, c, l, count-replicate (suc n)) (place-plain n idx inst a)
