-- ===== src/StrDict/Reports.antt =====
-- The points that the two checks of src/dict_str.c report, and the loop over a dynamic pattern.
use valiant.Prelude.{
  ℕ, zero, suc, ◌≤◌, ◌≡◌, ◌≢◌, ◌⊎◌, refl, ap, Bool, true, false, not, ◌&&◌, ◌||◌, Option, none,
  some, [], ◌∷◌, ◌==◌, if◌then◌else◌, Bytes, strcmp, strcasecmp, char_at, length, drop, arith,
  Bool-cases, Option-cases, inl, inr,
}
use valiant.Prelude.Floats.{Floats}
use valiant.Results.{Result, update}
use valiant.Request.{Request, mbrbyid, mbrbynamen}
use valiant.Request.Buffer.{Buffers}
use valiant.Dict.{percent}
use valiant.StrDict.{
  StrDict, stat_check, dyn_check, Scan, go, break, panic, Scanned, ended, panicked, no_fuel,
  scan_loop, scan, scan_name, scan_byte, strchr_percent,
}

-- The member is the pattern, up to case where the dictionary says so.
unfoldable pub matches : {F : Floats} → StrDict F → Option Bytes → Bool
matches d none = false
matches d (some s) = if d.nocase then strcasecmp s d.pattern else strcmp s d.pattern

Scanned-cases : (t : Scanned) → ((m p : Bytes) × (t ≡ ended m p)) ⊎ (t ≡ panicked) ⊎ (t ≡ no_fuel)
Scanned-cases (ended m p) = inl (m, p, refl)
Scanned-cases panicked = inr (inl refl)
Scanned-cases no_fuel = inr (inr refl)

choice :
    {A : Type 0} (m i : Bool) (w z : A)
    → (if m then (if i then z else w) else if i then w else z)
      ≡ (if (m && not i) || (not m && i) then w else z)
choice true true w z = refl
choice true false w z = refl
choice false true w z = refl
choice false false w z = refl

strchr_percent-le :
    (s : Bytes) {before from : Bytes}
    → strchr_percent s ≡ some (before, from)
    → length from ≤ length s
unfolding strchr_percent
strchr_percent-le [] h = ground arith
strchr_percent-le (c ∷ s) {from = from} h = elim (Bool-cases (c == percent)) [
  | inl e ↦ ground (arith, e, h)
  | inr e ↦ elim (Option-cases (strchr_percent s)) [
    | inl k ↦ ground (arith, e, k, h)
    | inr ((b, f), k) ↦ ground (arith, e, k, h, strchr_percent-le s k)
  ]
]

length-drop_le : (p : Bytes) → length (drop 1 p) ≤ length p
length-drop_le [] = omega arith
length-drop_le (c ∷ p) = omega arith

turn-fuel :
    (t : Scan) (loop : Bytes → Bytes → Scanned)
    → ((m p : Bytes) → t ≡ go m p → loop m p ≢ no_fuel)
    → elim t as (λ x. Scanned) [ go m p ↦ loop m p | break m p ↦ ended m p | panic ↦ panicked ]
      ≢ no_fuel
turn-fuel (go m p) loop h = h m p refl
turn-fuel (break m p) loop h = ground arith
turn-fuel panic loop h = ground arith

module _ (B : Buffers) where
  scan_byte-le :
      (nocase : Bool) (m : ℕ) (member : Bytes) (c : ℕ) (p : Bytes) {member' p' : Bytes}
      → scan_byte nocase m member c p ≡ go member' p'
      → length p' ≤ length p
  unfolding scan_byte
  scan_byte-le nocase m member c p h = ground arith

  scan_name-le :
      (nocase : Bool) (req : Request B.Buf) (member p : Bytes) {member' p' : Bytes}
      → scan_name B nocase req member p ≡ go member' p'
      → length p' ≤ length p
  unfolding scan_name
  scan_name-le nocase req member p h = elim (Option-cases (strchr_percent p)) [
    | inl e ↦ ground (arith, e, h)
    | inr ((b, f), e) ↦ elim (Option-cases (mbrbynamen B req p (length b))) [
      | inl k ↦ ground (arith, e, h, k)
      | inr (str, k) ↦ ground (arith, e, h, k, strchr_percent-le p e, length-drop_le f)
    ]
  ]

  -- A turn that goes on leaves no more of the pattern than what stands behind its byte.
  scan-le :
      (nocase : Bool) (req : Request B.Buf) (m : ℕ) (member : Bytes) (c : ℕ) (p : Bytes)
      {member' p' : Bytes}
      → scan B nocase req m member c p ≡ go member' p'
      → length p' ≤ length p
  unfolding scan
  scan-le nocase req m member c p {member' = r} {p' = q} h = elim (Bool-cases (c == percent)) [
    | inr e ↦ scan_byte-le nocase m member c p {member' = r} {p' = q} (ground (arith, e, h))
    | inl e ↦ elim (Bool-cases (char_at p 0 == percent)) [
      | inl k ↦ ground (
        arith,
        length-drop_le p,
        scan_byte-le nocase m member percent (drop 1 p) {member' = r} {p' = q}
            (ground (arith, e, k, h)),
      )
      | inr k ↦
          scan_name-le nocase req (m ∷ member) p {member' = r} {p' = q} (ground (arith, e, k, h))
    ]
  ]

  -- The length of the pattern is fuel enough for the loop over it.
  pub scan_loop-fuel :
      (fuel : ℕ) (nocase : Bool) (req : Request B.Buf) (member p : Bytes)
      → length p ≤ fuel
      → scan_loop B fuel nocase req member p ≢ no_fuel
  unfolding scan_loop
  scan_loop-fuel fuel nocase req [] p h = ground arith
  scan_loop-fuel fuel nocase req (m ∷ member) [] h = ground arith
  scan_loop-fuel zero nocase req (m ∷ member) (c ∷ p) h = absurd (omega arith)
  scan_loop-fuel (suc fuel) nocase req (m ∷ member) (c ∷ p) h =
      turn-fuel (scan B nocase req m member c p) (scan_loop B fuel nocase req) (λ m' p' e.
        scan_loop-fuel fuel nocase req m' p' (omega (arith, scan-le nocase req m member c p e)))

module _ {F : Floats} (B : Buffers) where
  -- The static check reports the weight just if the match and the inversion differ, and 0 if not; a
  -- member that is absent matches nothing.
  pub stat_check_lem :
      (d : StrDict F) (req : Request B.Buf) (res : Result F) (pos : ℕ)
      → stat_check B d req res pos
        ≡ update F res pos (
            if (matches d (mbrbyid B req d.member) && not d.invert)
              || (not (matches d (mbrbyid B req d.member)) && d.invert)
            then d.weight
            else F.zero)
  unfolding stat_check matches
  stat_check_lem d req res pos = elim (Option-cases (mbrbyid B req d.member)) [
    | inl e ↦
        rw (stat_check, e, matches) (ap (update F res pos) (choice false d.invert d.weight F.zero))
    | inr (s, e) ↦
        rw (stat_check, e, matches)
          (ap (update F res pos) (choice (matches d (some s)) d.invert d.weight F.zero))
  ]

  -- The dynamic check reports the weight of the dictionary whatever the comparison comes to, and
  -- also if the request has no such member; or else its loop over the pattern ends the program.
  pub dyn_check_lem :
      (d : StrDict F) (req : Request B.Buf) (res : Result F) (pos : ℕ)
      → (dyn_check B d req res pos ≡ some (update F res pos d.weight))
        ⊎ ((member : Bytes) × (mbrbyid B req d.member ≡ some member)
            × (scan_loop B (length d.pattern) d.nocase req member d.pattern ≡ panicked))
  unfolding dyn_check
  dyn_check_lem d req res pos = elim (Option-cases (mbrbyid B req d.member)) [
    | inl e ↦ inl (rw (dyn_check, e) refl)
    | inr (s, e) ↦ elim (Scanned-cases (scan_loop B (length d.pattern) d.nocase req s d.pattern)) [
      | inl (m, p, k) ↦ inl (rw (dyn_check, e, k) refl)
      | inr (inl k) ↦ inr (s, e, k)
      | inr (inr k) ↦
          absurd (scan_loop-fuel B (length d.pattern) d.nocase req s d.pattern (omega arith) k)
    ]
  ]
