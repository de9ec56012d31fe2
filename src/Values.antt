-- ===== src/Values.antt =====
-- Tagged values (src/value.c). A value holds its string itself: a pointer to it is handed to no one.
pub mod Access
use valiant.Prelude.{
  ℕ, ◌^◌, ◌-◌, Bool, true, false, ◌||◌, Option, none, some, ◌==◌, if◌then◌else◌, Bytes, take,
}
use valiant.Prelude.Int.{ℤ}

-- `value_t`: the tag with the member of the union that it stands for, over the type of the doubles.
pub data Value (Double : Type 0) : Type 0 where
  value_null : Value Double
  value_bool : Bool → Value Double
  value_char : ℕ → Value Double
  value_long : ℤ → Value Double
  value_double : Double → Value Double
  value_str : Bytes → Value Double

-- `value_type_t`
pub data ValueType : Type 0 where
  type_null type_bool type_char type_long type_double type_str : ValueType

-- `SIZE_MAX`
abbrev pub size_max : ℕ
size_max = 2 ^ 64 - 1

module _ {Double : Type 0} where
  -- `value_clear`
  unfoldable pub clear : Value Double → Value Double
  clear val = value_null

  -- `value_copy`: the target; `none` where `strdup` fails, and the target is as it was
  unfoldable pub copy : Value Double → (memory : Bool) → Option (Value Double)
  copy (value_str s) memory = if memory then some (value_str s) else none
  copy val memory = some val

  -- `value_get_type`
  unfoldable pub get_type : Value Double → ValueType
  get_type value_null = type_null
  get_type (value_bool _) = type_bool
  get_type (value_char _) = type_char
  get_type (value_long _) = type_long
  get_type (value_double _) = type_double
  get_type (value_str _) = type_str

  -- The getters; `none` is an error.
  unfoldable pub get_bool : Value Double → Option Bool
  get_bool (value_bool b) = some b
  get_bool _ = none

  unfoldable pub get_char : Value Double → Option ℕ
  get_char (value_char c) = some c
  get_char _ = none

  unfoldable pub get_long : Value Double → Option ℤ
  get_long (value_long l) = some l
  get_long _ = none

  unfoldable pub get_double : Value Double → Option Double
  get_double (value_double d) = some d
  get_double _ = none

  unfoldable pub get_str : Value Double → (memory : Bool) → Option Bytes
  get_str (value_str s) memory = if memory then some s else none
  get_str _ memory = none

  -- the setters
  unfoldable pub set_bool : Value Double → Bool → Value Double
  set_bool val b = value_bool b

  unfoldable pub set_char : Value Double → ℕ → Value Double
  set_char val c = value_char c

  unfoldable pub set_long : Value Double → ℤ → Value Double
  set_long val l = value_long l

  unfoldable pub set_double : Value Double → Double → Value Double
  set_double val d = value_double d

  -- `value_set_str`; where memory fails the value is as it was, and an error is returned
  unfoldable pub set_str : Value Double → Bytes → ℕ → (memory : Bool) → Value Double × Bool
  set_str val s len memory =
      if memory
      then (value_str (if len == 0 || len == size_max then s else take len s), true)
      else (val, false)
