-- ===== src/Strings/Compared.antt =====
-- Comparison without case, and the values of digits (src/string.c).
use valiant.Prelude.{
  ℕ, ◌+◌, ◌<◌, ◌≡◌, ◌↔◌, true, false, [], ◌∷◌, ◌==◌, leb, ◌&&◌, ◌||◌, arith, Bytes, length, All,
  Bool-cases, inl, inr,
}
use valiant.Prelude.Int.{pos, negsuc}
use valiant.Strings.{todigit_c, difference, tolower_c, casecmp_loop, strcasecmp_c}

difference_zero : (a b : ℕ) → (difference a b ≡ pos 0) ↔ (a ≡ b)
unfolding difference
difference_zero a b = ground arith

casecmp_loop-same :
    (s1 s2 : ℕ) (p1 p2 : Bytes)
    → (tolower_c s1 == tolower_c s2) ≡ true
    → All (λ c. 0 < c) p1
    → All (λ c. 0 < c) p2
    → (casecmp_loop s1 s2 p1 p2 ≡ pos 0) ↔ (length p1 ≡ length p2)
unfolding casecmp_loop
casecmp_loop-same s1 s2 [] [] h a b = ground arith
casecmp_loop-same s1 s2 [] (y ∷ p2) h a (k, b) = ground (arith, difference_zero 0 y, k)
casecmp_loop-same s1 s2 (x ∷ p1) [] h (k, a) b = ground (arith, difference_zero x 0, k)
casecmp_loop-same s1 s2 (x ∷ p1) (y ∷ p2) h (k, a) (l, b) =
    ground (arith, h, casecmp_loop-same s1 s2 p1 p2 h a b)

casecmp_loop-other :
    (x y : ℕ) (s1 s2 : Bytes)
    → (tolower_c x == tolower_c y) ≡ false
    → (casecmp_loop x y (x ∷ s1) (y ∷ s2) ≡ pos 0)
      ↔ ((tolower_c x ≡ tolower_c y) × (length s1 ≡ length s2))
unfolding casecmp_loop
casecmp_loop-other x y s1 s2 e = ground (arith, e, difference_zero (tolower_c x) (tolower_c y))

-- Two strings that are not empty compare as equal just if their first bytes are equal up to case and
-- they are equally long, whatever their other bytes are.
pub strcasecmp_c-zero :
    (x y : ℕ) (s1 s2 : Bytes)
    → All (λ c. 0 < c) (x ∷ s1)
    → All (λ c. 0 < c) (y ∷ s2)
    → (strcasecmp_c (x ∷ s1) (y ∷ s2) ≡ pos 0)
      ↔ ((tolower_c x ≡ tolower_c y) × (length s1 ≡ length s2))
unfolding strcasecmp_c
strcasecmp_c-zero x y s1 s2 a b = elim (Bool-cases (tolower_c x == tolower_c y)) [
  | inl e ↦ ground (arith, e, casecmp_loop-same x y (x ∷ s1) (y ∷ s2) e a b)
  | inr e ↦ casecmp_loop-other x y s1 s2 e
]

-- The letters of hexadecimal digits, of either case, have the values of the digits from 0 to 5, and
-- every byte that is no such digit has -1.
todigit_c-letters :
    (k c : ℕ)
    → k < 6
    → (todigit_c (97 + k) ≡ todigit_c (48 + k))
      × (todigit_c (65 + k) ≡ todigit_c (48 + k))
      × ((todigit_c c ≡ negsuc 0)
          ↔ ((leb 48 c && leb c 57) || (leb 97 c && leb c 102) || (leb 65 c && leb c 70) ≡ false))
unfolding todigit_c
todigit_c-letters k c h = (ground arith, ground arith, ground arith)
