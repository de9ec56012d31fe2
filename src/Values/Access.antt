-- ===== src/Values/Access.antt =====
-- Setters and getters (src/value.c).
use valiant.Prelude.{ℕ, ◌+◌, ◌≡◌, ◌≢◌, refl, Bool, true, Option, none, some, Bytes}
use valiant.Prelude.Int.{ℤ}
use valiant.Values.{
  Value, value_null, value_bool, value_char, value_long, value_double, value_str, type_null, clear,
  get_type, get_bool, get_char, get_long, get_double, get_str, set_bool, set_char, set_long,
  set_double, set_str,
}

unfoldable pub is_some : {A : Type 0} → Option A → ℕ
is_some none = 0
is_some (some _) = 1

module _ {Double : Type 0} where
  -- How many of the getters succeed.
  unfoldable pub readable : Value Double → ℕ
  unfolding is_some
  readable v =
      is_some (get_bool v)
      + is_some (get_char v)
      + is_some (get_long v)
      + is_some (get_double v)
      + is_some (get_str v true)

  -- Just one getter reads a value that is not null, where memory is at hand, and none a null one;
  -- after any setter that is so whatever the value was before, and a cleared value is null.
  pub readable_lem :
      (v : Value Double) (b : Bool) (c : ℕ) (l : ℤ) (d : Double) (s : Bytes) (len : ℕ)
      → (get_type v ≢ type_null → readable v ≡ 1)
        × (readable (set_bool v b) ≡ 1)
        × (readable (set_char v c) ≡ 1)
        × (readable (set_long v l) ≡ 1)
        × (readable (set_double v d) ≡ 1)
        × (readable (set_str v s len true).0 ≡ 1)
        × (readable (clear v) ≡ 0)
  unfolding readable is_some get_type get_bool get_char get_long get_double get_str set_bool
      set_char set_long set_double set_str clear
  readable_lem v b c l d s len = (one v, refl, refl, refl, refl, refl, refl)
    where
      one : (w : Value Double) → get_type w ≢ type_null → readable w ≡ 1
      one value_null h = absurd (h refl)
      one (value_bool _) h = refl
      one (value_char _) h = refl
      one (value_long _) h = refl
      one (value_double _) h = refl
      one (value_str _) h = refl
