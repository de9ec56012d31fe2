-- ===== src/Strings/Grown.antt =====
-- Appending to a string and copying to it (src/string.c).
use valiant.Prelude.{
  Bool, ℕ, ◌+◌, ◌-◌, ◌≤◌, ◌<◌, ◌≡◌, ◌↔◌, ◌⊎◌, refl, sym, ap, subst, true, false, ◌||◌, ◌++◌, ◌==◌,
  ltb, leb, arith, Bytes, length, length-append, Bool-cases, inl, inr,
}
use valiant.Strings.{
  asserted, is_sane, Text, Code, ok, erange, size_max, limit_of, set_size, copied, string_copy,
  string_append,
}

-- The tests of `string_is_sane`, and that the available bytes can be counted.
pub record IsSane (u8_check : Bytes → Bool) (str : Text) : Type 0 where
  pub inside : str.position ≤ length str.bytes
  pub room : length str.bytes ≤ str.len
  pub limited : (str.len ≤ str.lim) ⊎ (str.lim ≡ 0)
  pub encoded : u8_check str.bytes ≡ true
  pub small : str.len < size_max

IsSane-asserted :
    (u8_check : Bytes → Bool) (str : Text) (chrs : Bytes)
    → IsSane u8_check str
    → 0 < length chrs
    → u8_check chrs ≡ true
    → asserted u8_check str chrs ≡ true
unfolding asserted is_sane
IsSane-asserted u8_check str chrs s n v =
    let a : leb str.position (length str.bytes) ≡ true = ground (arith, s.inside) in
    let b : leb (length str.bytes) str.len ≡ true = ground (arith, s.room) in
    let c : (leb str.len str.lim || str.lim == 0) ≡ true = ground (arith, s.limited) in
    let d : (length chrs == 0) ≡ false = ground (arith, n) in
    ground (arith, a, b, c, d, v, s.encoded)

limit_of-lim : (str : Text) → 0 < str.lim → str.lim < size_max → limit_of str ≡ str.lim
unfolding limit_of
limit_of-lim str h k = ground arith

limit_of_none : (str : Text) → str.lim ≡ 0 → limit_of str ≡ size_max - 1
unfolding limit_of
limit_of_none str h = ground arith

-- There are three ends to a change of the size where memory is at hand.
set_size-cases :
    (str : Text) (n : ℕ)
    → ((limit_of str < n) × (set_size str n true ≡ (str, erange)))
      ⊎ ((n ≤ limit_of str)
          × (str.len < n)
          × (set_size str n true ≡ (record str { allocated = true; len = n }, ok)))
      ⊎ ((n ≤ limit_of str) × (n ≤ str.len) × (set_size str n true ≡ (str, ok)))
unfolding set_size
set_size-cases str n = elim (Bool-cases (ltb (limit_of str) n)) [
  | inl e ↦ inl (ground (arith, e), rw (set_size, e) refl)
  | inr e ↦ elim (Bool-cases (ltb str.len n)) [
    | inl k ↦ inr (inl (ground (arith, e), ground (arith, k), rw (set_size, e, k) refl))
    | inr k ↦ inr (inr (ground (arith, e), ground (arith, k), rw (set_size, e, k) refl))
  ]
]

-- A string with a limit is overwritten just by as many bytes as the limit says: fewer are refused as
-- out of range, though there is room for them.
string_copy-limited :
    (u8_check : Bytes → Bool) (str : Text) (chrs : Bytes)
    → asserted u8_check str chrs ≡ true
    → 0 < str.lim
    → str.lim < size_max
    → ((string_copy u8_check str chrs true).1 ≡ ok) ↔ (length chrs ≡ str.lim)
unfolding string_copy copied
string_copy-limited u8_check str chrs v h k =
    let l = limit_of-lim str h k in
    elim (set_size-cases str (length chrs)) [
      | inl (a, e) ↦ ground (arith, l, a, v, ap (λ r. copied r chrs) e)
      | inr (inl (a, b, e)) ↦ ground (arith, l, a, v, ap (λ r. copied r chrs) e)
      | inr (inr (a, b, e)) ↦ ground (arith, l, a, v, ap (λ r. copied r chrs) e)
    ]

append-copied :
    (u8_check : Bytes → Bool) (str : Text) (chrs : Bytes)
    → asserted u8_check str chrs ≡ true
    → length str.bytes + length chrs < size_max
    → (str.lim ≡ 0) ⊎ (length str.bytes + length chrs ≤ str.lim)
    → string_append u8_check str chrs true
      ≡ copied (set_size str (length str.bytes + length chrs) true) (str.bytes ++ chrs)
unfolding string_append
append-copied u8_check str chrs v h fits =
    let a : ltb (size_max - length str.bytes) (length chrs) ≡ false = ground (arith, h) in
    let b : (str.lim == 0 || leb (length str.bytes + length chrs) str.lim) ≡ true =
      ground (arith, fits) in
    rw (string_append, v, a, b) refl

limit_of-fits :
    (str : Text) (n : ℕ) → n < size_max → (str.lim ≡ 0) ⊎ (n ≤ str.lim) → n ≤ limit_of str
unfolding limit_of
limit_of-fits str n h fits = ground (arith, h, fits)

-- What an append comes to.
Appended : (Bytes → Bool) → Text → Bytes → Text × Code → Type 0
Appended u8_check str chrs r = (r.1 ≡ ok) × (r.0.bytes ≡ str.bytes ++ chrs) × IsSane u8_check r.0

-- One byte or more that are well encoded and fit under the limit, or are appended to a string without
-- one, are put behind those that are there, where memory is at hand and the sum is less than SIZE_MAX;
-- a sane string stays sane, its encoding included. (Two well encoded strings make one.)
pub string_append_lem :
    (u8_check : Bytes → Bool)
    (joins : (a b : Bytes) → u8_check a ≡ true → u8_check b ≡ true → u8_check (a ++ b) ≡ true)
    (str : Text) (chrs : Bytes)
    → IsSane u8_check str
    → 0 < length chrs
    → u8_check chrs ≡ true
    → length str.bytes + length chrs < size_max
    → (str.lim ≡ 0) ⊎ (length str.bytes + length chrs ≤ str.lim)
    → ((string_append u8_check str chrs true).1 ≡ ok)
      × ((string_append u8_check str chrs true).0.bytes ≡ str.bytes ++ chrs)
      × IsSane u8_check (string_append u8_check str chrs true).0
unfolding Appended copied
string_append_lem u8_check joins str chrs s some_byte v h fits =
    let n = length str.bytes + length chrs in
    let P = Appended u8_check str chrs in
    let len : length (str.bytes ++ chrs) ≡ n = length-append str.bytes chrs in
    let room = limit_of-fits str n h fits in
    let whole = joins str.bytes chrs s.encoded v in
    let passed = IsSane-asserted u8_check str chrs s some_byte v in
    subst P (sym (append-copied u8_check str chrs passed h fits)) (elim (set_size-cases str n) [
      | inl (a, e) ↦ absurd (omega (arith, a, room))
      | inr (inl (a, b, e)) ↦
          subst (λ r. P (copied r (str.bytes ++ chrs))) (sym e)
            (
              refl,
              refl,
              record {
                inside = omega (arith, len, s.inside);
                room = omega (arith, len);
                limited = elim fits [ inl z ↦ inr z | inr z ↦ inl z ];
                encoded = whole;
                small = h;
              },
            )
      | inr (inr (a, b, e)) ↦
          subst (λ r. P (copied r (str.bytes ++ chrs))) (sym e)
            (
              refl,
              refl,
              record {
                inside = omega (arith, len, s.inside);
                room = omega (arith, len, b);
                limited = s.limited;
                encoded = whole;
                small = s.small;
              },
            )
    ])
