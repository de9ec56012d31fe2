-- ===== src/Prelude/Floats.antt =====
-- The floating-point numbers that weights and scores are: a type with the operations that the code
-- uses, taken as a parameter, and the laws that some results need of it.
use Prim.Native.Nat.{ℕ, ◌+◌}
use mathlib.Core.Path.{◌≡◌, refl}
use mathlib.Core.Bool.{Bool, true, false, not}
use native.Mathlib.Omega.{arith}
use valiant.Prelude.Tests.{ltb, ◌==◌}

pub record Floats : Type 1 where
  pub Float : Type 0
  pub zero : Float
  pub add : Float → Float → Float
  -- a < b
  pub less : Float → Float → Bool
  -- a >= b
  pub at_least : Float → Float → Bool
  -- a == 0.0
  pub is_zero : Float → Bool

-- The values that are no NaN are ordered by `<`, and 0.0 is zero.
pub record IsOrdered (F : Floats) : Type 0 where
  pub less_irrefl : (a : F.Float) → F.less a a ≡ false
  pub less_trans : (a b c : F.Float) → F.less a b ≡ true → F.less b c ≡ true → F.less a c ≡ true
  pub less_cotrans :
      (a b c : F.Float) → F.less a b ≡ false → F.less b c ≡ false → F.less a c ≡ false
  pub at_least_not_less : (a b : F.Float) → F.at_least a b ≡ not (F.less a b)
  pub zero_is_zero : F.is_zero F.zero ≡ true

-- Whole numbers meet them.
abbrev pub whole : Floats
whole = record {
  Float = ℕ;
  zero = 0;
  add = λ a b. a + b;
  less = ltb;
  at_least = λ a b. not (ltb a b);
  is_zero = λ a. a == 0;
}

pub whole-IsOrdered : IsOrdered whole
whole-IsOrdered = record {
  less_irrefl = λ a. ground arith;
  less_trans = λ a b c h k. ground arith;
  less_cotrans = λ a b c h k. ground arith;
  at_least_not_less = λ a b. refl;
  zero_is_zero = refl;
}
