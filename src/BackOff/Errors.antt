-- ===== src/BackOff/Errors.antt =====
-- Errors in a row, from the state that `vt_state_init` leaves (src/state.c).
use valiant.Prelude.{
  ℕ, zero, suc, ◌+◌, ◌/◌, ◌≤◌, ◌<◌, ◌≡◌, refl, ap, ◌∙◌, false, ◌&&◌, Option, none, some, List, [],
  ◌∷◌, ltb, leb, arith, All, Bool-cases, inl, inr,
}
use valiant.BackOff.{State, init, omit, error, too_many, first_slot, raise_power, set_back_off}
use valiant.BackOff.Attributes.{power_for-bounds}

-- No power, and no back-off beyond the time `t`.
pub record NeverOff (t : ℕ) (s : State) : Type 0 where
  pub no_power : s.power ≡ 0
  pub some_max : 0 < s.max_power
  pub some_secs : 0 < s.back_off_secs
  pub over : s.back_off ≤ t

raise_power_zero : (fuel m : ℕ) → raise_power fuel 0 m ≡ 0
unfolding raise_power
raise_power_zero zero m = refl
raise_power_zero (suc fuel) m = refl

first_slot_zero : (s : State) (now : ℕ) → s.power ≡ 0 → 0 < s.max_power → (first_slot s now).0 ≡ 0
unfolding first_slot
first_slot_zero s now e h = ground arith

half_zero : (n : ℕ) → n ≡ 0 → n / 2 ≡ 0
half_zero n e = rw e refl

set_back_off-NeverOff :
    (t : ℕ) (s : State) (now power : ℕ)
    → now ≤ t
    → power ≡ 0
    → 0 < s.max_power
    → 0 < s.back_off_secs
    → NeverOff t (set_back_off s now power)
unfolding set_back_off
set_back_off-NeverOff t s now power h e m k = ground (arith, half_zero power e)

too_many-NeverOff :
    (t : ℕ) (s : State) (now : ℕ)
    → now ≤ t
    → NeverOff t s
    → (u : State) × (too_many s now ≡ some u) × NeverOff t u
unfolding too_many
too_many-NeverOff t s now h v =
    let m = (first_slot s now).1 / s.back_off_secs in
    let p = raise_power m (first_slot s now).0 m in
    (
      set_back_off (record s { errors = 0 }) now p,
      ground (arith, v.some_secs),
      set_back_off-NeverOff t (record s { errors = 0 }) now p h
          (ap (λ q. raise_power m q m) (first_slot_zero s now v.no_power v.some_max)
            ∙ raise_power_zero m m)
          v.some_max v.some_secs,
    )

-- An error, at a time up to `t`, leaves the power at 0 and the back-off no later than `t`.
error-NeverOff :
    (t : ℕ) (s : State) (now later : ℕ)
    → now ≤ t
    → NeverOff t s
    → (u : State) × (error s now later ≡ some u) × NeverOff t u
unfolding error
error-NeverOff t s now later h v = elim (Bool-cases (ltb s.back_off now)) [
  | inr e ↦ (s, rw (error, e) refl, v)
  | inl e ↦ elim (Bool-cases (ltb s.back_off s.start && ltb now (s.start + s.time_frame))) [
    | inr f ↦ (
      record s { start = later; errors = 1 },
      rw (error, e, f) refl,
      record {
        no_power = v.no_power;
        some_max = v.some_max;
        some_secs = v.some_secs;
        over = v.over;
      },
    )
    | inl f ↦ elim (Bool-cases (leb s.max_errors (s.errors + 1))) [
      | inr g ↦ (
        record s { errors = s.errors + 1 },
        rw (error, e, f, g) refl,
        record {
          no_power = v.no_power;
          some_max = v.some_max;
          some_secs = v.some_secs;
          over = v.over;
        },
      )
      | inl g ↦ let (u, k, w) = too_many-NeverOff t s now h v in (u, rw (error, e, f, g) k, w)
    ]
  ]
]

-- `vt_state_error`, once for each pair of times
unfoldable pub error_all : State → List (ℕ × ℕ) → Option State
error_all s [] = some s
error_all s ((now, later) ∷ times) = elim (error s now later) [
  | none ↦ none
  | some u ↦ error_all u times
]

error_all-NeverOff :
    (t : ℕ) (times : List (ℕ × ℕ)) (s : State)
    → All (λ p. p.0 ≤ t) times
    → NeverOff t s
    → (u : State) × (error_all s times ≡ some u) × NeverOff t u
unfolding error_all
error_all-NeverOff t [] s a v = (s, refl, v)
error_all-NeverOff t ((now, later) ∷ times) s (h, a) v =
    let (u, e, w) = error-NeverOff t s now later h v in
    let (u', e', w') = error_all-NeverOff t times u a w in (u', rw (error_all, e) e', w')

init-NeverOff : (t : ℕ) → NeverOff t init
unfolding init
init-NeverOff t = record {
  no_power = refl;
  some_max = omega (arith, (power_for-bounds 48 (omega arith)).0);
  some_secs = omega arith;
  over = omega arith;
}

-- From a new state, no number of errors, at any times up to `t`, divides by 0 or makes the block
-- list be left alone: at the time `t` `vt_state_omit` returns 0.
pub omit-error_all :
    (t : ℕ) (times : List (ℕ × ℕ))
    → All (λ p. p.0 ≤ t) times
    → (u : State) × (error_all init times ≡ some u) × (omit u t ≡ false)
unfolding omit
omit-error_all t times a =
    let (u, e, v) = error_all-NeverOff t times init a (init-NeverOff t) in
    (u, e, ground (arith, v.over))
