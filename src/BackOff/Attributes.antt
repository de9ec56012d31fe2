-- ===== src/BackOff/Attributes.antt =====
-- The attributes, and the power that goes with them (src/state.c).
use valiant.Prelude.{ℕ, zero, suc, ◌+◌, ◌/◌, ◌≤◌, ◌<◌, ◌≡◌, ◌≢◌, refl, false, some, ◌==◌, arith}
use valiant.BackOff.{
  State, Attr, attr_max_errors, attr_time_frame, attr_back_off_time, attr_max_back_off_time,
  get_attr, set_attr, set_max_power, power_for, double_up,
}

not_zero : (n : ℕ) → 0 < n → (n == 0) ≡ false
not_zero n h = ground arith

-- the state after an attribute is set
written : State → Attr → ℕ → State
written s attr_max_errors num = record s { max_errors = num }
written s attr_time_frame num = record s { time_frame = num }
written s attr_back_off_time num = record s {
  back_off_secs = num;
  max_power = power_for (s.max_back_off_secs / num);
}
written s attr_max_back_off_time num = record s {
  max_back_off_secs = num;
  max_power = power_for (num / s.back_off_secs);
}

set_attr-written :
    (s : State) (a : Attr) (num : ℕ)
    → 0 < s.back_off_secs
    → 0 < num
    → set_attr s a num ≡ some (written s a num)
unfolding set_attr set_max_power written
set_attr-written s attr_max_errors num h k = refl
set_attr-written s attr_time_frame num h k = refl
set_attr-written s attr_back_off_time num h k = rw (not_zero _ k) refl
set_attr-written s attr_max_back_off_time num h k = rw (not_zero _ h) refl

get_attr-written :
    (s : State) (a b : Attr) (num : ℕ)
    → (get_attr (written s a num) a ≡ num) × (a ≢ b → get_attr (written s a num) b ≡ get_attr s b)
unfolding get_attr written
get_attr-written s attr_max_errors attr_max_errors num = (refl, λ n. absurd (n refl))
get_attr-written s attr_max_errors attr_time_frame num = (refl, λ n. refl)
get_attr-written s attr_max_errors attr_back_off_time num = (refl, λ n. refl)
get_attr-written s attr_max_errors attr_max_back_off_time num = (refl, λ n. refl)
get_attr-written s attr_time_frame attr_max_errors num = (refl, λ n. refl)
get_attr-written s attr_time_frame attr_time_frame num = (refl, λ n. absurd (n refl))
get_attr-written s attr_time_frame attr_back_off_time num = (refl, λ n. refl)
get_attr-written s attr_time_frame attr_max_back_off_time num = (refl, λ n. refl)
get_attr-written s attr_back_off_time attr_max_errors num = (refl, λ n. refl)
get_attr-written s attr_back_off_time attr_time_frame num = (refl, λ n. refl)
get_attr-written s attr_back_off_time attr_back_off_time num = (refl, λ n. absurd (n refl))
get_attr-written s attr_back_off_time attr_max_back_off_time num = (refl, λ n. refl)
get_attr-written s attr_max_back_off_time attr_max_errors num = (refl, λ n. refl)
get_attr-written s attr_max_back_off_time attr_time_frame num = (refl, λ n. refl)
get_attr-written s attr_max_back_off_time attr_back_off_time num = (refl, λ n. refl)
get_attr-written s attr_max_back_off_time attr_max_back_off_time num = (refl, λ n. absurd (n refl))

-- An attribute that is set to a positive number is read back, and the others are as they were,
-- where the back-off time is positive.
pub get_attr-set_attr :
    (s : State) (a b : Attr) (num : ℕ)
    → 0 < s.back_off_secs
    → 0 < num
    → (t : State) × (set_attr s a num ≡ some t)
      × (get_attr t a ≡ num)
      × (a ≢ b → get_attr t b ≡ get_attr s b)
get_attr-set_attr s a b num h k =
    let (read, others) = get_attr-written s a b num in
    (written s a num, set_attr-written s a num h k, read, others)

double_up-ge : (fuel i n : ℕ) → n ≤ i + fuel → 1 ≤ i → n ≤ double_up fuel i n
unfolding double_up
double_up-ge zero i n h k = omega arith
double_up-ge (suc fuel) i n h k = ground (arith, double_up-ge fuel (i + i) n)

double_up-lt : (fuel i n : ℕ) → i < n + n → double_up fuel i n < n + n
unfolding double_up
double_up-lt zero i n h = h
double_up-lt (suc fuel) i n h = ground (arith, double_up-lt fuel (i + i) n)

-- The power is no less than the number that it is made for, and less than twice that; so the turns
-- of the loop are enough.
pub power_for-bounds : (n : ℕ) → 0 < n → (n ≤ power_for n) × (power_for n < n + n)
unfolding power_for
power_for-bounds n h =
    (double_up-ge n 1 n (omega arith) (omega arith), double_up-lt n 1 n (omega arith))
