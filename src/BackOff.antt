-- ===== src/BackOff.antt =====
-- How long a block list is left alone after errors (src/state.c). Times are in seconds; the numbers
-- of type int are none of them negative.
pub mod Attributes
pub mod Errors
mod Tests
use valiant.Prelude.{
  ℕ, zero, suc, ◌+◌, ◌-◌, ◌*◌, ◌/◌, Bool, true, false, not, ◌&&◌, Option, none, some, List, [], ◌∷◌,
  ◌==◌, ltb, leb, if◌then◌else◌,
}

-- `struct _vt_state` without its lock
pub record State : Type 0 where
  pub start : ℕ
  pub back_off : ℕ
  pub time_frame : ℕ
  pub back_off_secs : ℕ
  pub max_back_off_secs : ℕ
  pub errors : ℕ
  pub max_errors : ℕ
  pub power : ℕ
  pub max_power : ℕ

-- `enum _vt_state_attr`
pub data Attr : Type 0 where
  attr_max_errors attr_time_frame attr_back_off_time attr_max_back_off_time : Attr

-- `for (; i < n; i<<=1);`
unfoldable pub double_up : ℕ → ℕ → ℕ → ℕ
double_up zero i n = i
double_up (suc fuel) i n = let rest = double_up fuel (i + i) n in if ltb i n then rest else i

-- The loop over `i` from 1; it doubles `i`, so `n` turns are enough.
unfoldable pub power_for : ℕ → ℕ
unfolding double_up
power_for n = double_up n 1 n

-- `vt_state_init`, where memory is at hand
unfoldable pub init : State
unfolding power_for
init = record {
  start = 0;
  back_off = 0;
  time_frame = 60;
  back_off_secs = 1800;
  max_back_off_secs = 86400;
  errors = 0;
  max_errors = 10;
  power = 0;
  max_power = power_for (86400 / 1800);
}

-- `vt_state_deinit`
abbrev pub deinit : State → State
deinit s = record {
  start = 0;
  back_off = 0;
  time_frame = 0;
  back_off_secs = 0;
  max_back_off_secs = 0;
  errors = 0;
  max_errors = 0;
  power = 0;
  max_power = 0;
}

-- `vt_state_get_attr`
unfoldable pub get_attr : State → Attr → ℕ
get_attr s attr_max_errors = s.max_errors
get_attr s attr_time_frame = s.time_frame
get_attr s attr_back_off_time = s.back_off_secs
get_attr s attr_max_back_off_time = s.max_back_off_secs

-- the new `max_power`; `none` is a division by 0
unfoldable pub set_max_power : State → Option State
set_max_power s =
    if s.back_off_secs == 0
    then none
    else some (record s { max_power = power_for (s.max_back_off_secs / s.back_off_secs) })

-- `vt_state_set_attr`
unfoldable pub set_attr : State → Attr → ℕ → Option State
set_attr s attr_max_errors num = some (record s { max_errors = num })
set_attr s attr_time_frame num = some (record s { time_frame = num })
set_attr s attr_back_off_time num = set_max_power (record s { back_off_secs = num })
set_attr s attr_max_back_off_time num = set_max_power (record s { max_back_off_secs = num })

-- `vt_state_omit` at the time `now`
unfoldable pub omit : State → ℕ → Bool
omit s now = ltb now s.back_off

-- `for (; power > 1 && power < multiplier; power<<=1) multiplier -= power;`
unfoldable pub raise_power : ℕ → ℕ → ℕ → ℕ
raise_power zero power multiplier = power
raise_power (suc fuel) power multiplier =
    let rest = raise_power fuel (power + power) (multiplier - power) in
    if ltb 1 power && ltb power multiplier then rest else power

-- the power and the time slot at the start of that loop
unfoldable pub first_slot : State → ℕ → ℕ × ℕ
first_slot s now =
    let time_slot = now - s.back_off in
    if leb s.max_power s.power
    then (if ltb s.max_back_off_secs time_slot
        then (s.power + s.power, time_slot - s.max_back_off_secs)
        else (s.power, 0))
    else (s.power, time_slot)

-- what follows the loop
unfoldable pub set_back_off : State → ℕ → ℕ → State
set_back_off s now power =
    if ltb power s.max_power
    then record s { power = power / 2; back_off = now + s.back_off_secs * (power / 2) }
    else record s { power = s.max_power; back_off = now + s.max_back_off_secs }

-- the error that is one too many; `none` is a division by 0
unfoldable pub too_many : State → ℕ → Option State
unfolding first_slot raise_power
too_many s now =
    let (power, time_slot) = first_slot s now in
    let multiplier = time_slot / s.back_off_secs in
    if s.back_off_secs == 0
    then none
    else some (set_back_off (record s { errors = 0 }) now (raise_power multiplier power multiplier))

-- `vt_state_error` at the time `now`; `later` is the time that it reads again. The test of the time
-- frame is `state->start > now - state->time_frame`.
unfoldable pub error : State → (now later : ℕ) → Option State
error s now later =
    if ltb s.back_off now
    then (if ltb s.back_off s.start && ltb now (s.start + s.time_frame)
        then (if leb s.max_errors (s.errors + 1)
            then too_many s now
            else some (record s { errors = s.errors + 1 }))
        else some (record s { start = later; errors = 1 }))
    else some s
