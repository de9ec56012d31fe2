-- ===== src/Rbl/Masks.antt =====
-- The netmasks, and the order that they give the weights (src/rbl.c).
use valiant.Prelude.{
  ℕ, zero, suc, ◌+◌, ◌-◌, ◌^◌, ◌≤◌, ◌<◌, ◌≡◌, refl, ap, ◌∙◌, Bool, List, arith, ltb, Bool-cases,
  inl, inr,
}
use native.Mathlib.Nat.{two-pow-succ, one-le-pow}
use valiant.Prelude.Floats.{Floats}
use valiant.Slist.{sort}
use valiant.Slist.Sorted.{IsOrder, Sorted, count, sort-Sorted}
use valiant.Rbl.{Weight, netmask_of, weight_after}

-- A power of 2 is twice the one before it.
power_double : (n : ℕ) → n < 32 → 2 ^ (32 - n) ≡ 2 ^ (31 - n) + 2 ^ (31 - n)
power_double n h =
    let e : 32 - n ≡ suc (31 - n) = omega arith in ap (λ k. 2 ^ k) e ∙ two-pow-succ (31 - n)

-- The netmask of so many bits is 2^32 less the number of addresses that it leaves open.
netmask_of-sum : (bits : ℕ) → bits ≤ 32 → netmask_of bits + 2 ^ (32 - bits) ≡ 2 ^ 32
unfolding netmask_of
netmask_of-sum zero h = refl
netmask_of-sum (suc bits) h =
    let e : 32 - suc bits ≡ 31 - bits = omega arith in
    rw e (omega (arith, netmask_of-sum bits (omega arith), power_double bits (omega arith)))

netmask_of-lt : (a b : ℕ) → a < b → netmask_of a < netmask_of b
unfolding netmask_of
netmask_of-lt a zero h = absurd (omega arith)
netmask_of-lt a (suc b) h =
    let positive : 1 ≤ 2 ^ (31 - b) = one-le-pow (31 - b) 2 (omega arith) in
    elim (Bool-cases (ltb a b)) [
      | inl e ↦ omega (arith, netmask_of-lt a b (ground (arith, e)))
      | inr e ↦ let k : a ≡ b = ground (arith, e, h) in rw k (omega (arith, positive))
    ]

netmask_of-ltb : (a b : ℕ) → ltb (netmask_of a) (netmask_of b) ≡ ltb a b
netmask_of-ltb a b = elim (Bool-cases (ltb a b)) [
  | inl e ↦ ground (arith, netmask_of-lt a b (ground (arith, e)), e)
  | inr e ↦ elim (Bool-cases (ltb b a)) [
    | inl k ↦ ground (arith, netmask_of-lt b a (ground (arith, k)), e)
    | inr k ↦ let q : a ≡ b = ground (arith, e, k) in rw q (ground arith)
  ]
]

weight_after-IsOrder : {F : Floats} → IsOrder (weight_after {F = F})
unfolding weight_after
weight_after-IsOrder = record { trans = λ a b c h k. ground arith; total = λ a b h. ground arith }

-- The weights of a block list are sorted by their netmasks, the largest one first, and a netmask of
-- more bits (32 at most) is the larger one. None is lost: as many pass any test as before.
sort-weight_after :
    {F : Floats} (ws : List (Weight F)) (a b : ℕ)
    → a ≤ 32
    → b ≤ 32
    → Sorted weight_after (sort weight_after ws)
      × ((p : Weight F → Bool) → count p (sort weight_after ws) ≡ count p ws)
      × (ltb (netmask_of a) (netmask_of b) ≡ ltb a b)
sort-weight_after ws a b h k =
    let (sorted, same) = sort-Sorted weight_after weight_after-IsOrder ws in
    (sorted, same, netmask_of-ltb a b)
