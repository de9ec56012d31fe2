-- ===== src/Prelude/CString.antt =====
-- Bytes, C strings and the library functions of C on them.
-- A C string is the list of its bytes before the terminator, so reading at its end gives 0.
use Prim.Native.Nat.{ℕ, zero, suc, ◌+◌}
use Prim.Native.Char.{code}
use Prim.Native.String.{String}
use mathlib.Core.Path.{◌≡◌, refl}
use mathlib.Core.Logic.{◌↔◌}
use mathlib.Core.Bool.{Bool, true, false, ◌&&◌}
use mathlib.Core.List.{List, [], ◌∷◌, ◌++◌}
use native.Mathlib.Omega.{arith}
use valiant.Prelude.Tests.{◌==◌, leb, if◌then◌else◌}
use valiant.Prelude.Lists.{length, get_or}

abbrev pub Bytes : Type 0
Bytes = List ℕ

-- The bytes of an ASCII literal.
abbrev pub codes : String → Bytes
codes String.[] = []
codes (String.◌∷◌ c s) = code c ∷ codes s

-- `str[i]`
abbrev pub char_at : Bytes → ℕ → ℕ
char_at s i = get_or s i 0

-- `strncmp (a, b, n) == 0`
unfoldable pub strncmp : Bytes → Bytes → ℕ → Bool
strncmp a b zero = true
strncmp [] [] (suc n) = true
strncmp [] (y ∷ b) (suc n) = false
strncmp (x ∷ a) [] (suc n) = false
strncmp (x ∷ a) (y ∷ b) (suc n) = x == y && strncmp a b n

-- `strcmp (a, b) == 0`
unfoldable pub strcmp : Bytes → Bytes → Bool
strcmp [] [] = true
strcmp (x ∷ a) (y ∷ b) = x == y && strcmp a b
strcmp _ _ = false

-- `tolower (c)` in the C locale
unfoldable pub tolower : ℕ → ℕ
tolower c = if leb 65 c && leb c 90 then c + 32 else c

-- `strcasecmp (a, b) == 0`
unfoldable pub strcasecmp : Bytes → Bytes → Bool
unfolding tolower
strcasecmp [] [] = true
strcasecmp (x ∷ a) (y ∷ b) = tolower x == tolower y && strcasecmp a b
strcasecmp _ _ = false

pub strcmp_iff : (a b : Bytes) → (strcmp a b ≡ true) ↔ (a ≡ b)
unfolding strcmp
strcmp_iff (x ∷ a) (y ∷ b) = ground (arith, strcmp_iff a b)
strcmp_iff _ _ = ground arith

pub strcmp_refl : (a : Bytes) → strcmp a a ≡ true
strcmp_refl a = (strcmp_iff a a).1 refl

pub strncmp-append : (w r : Bytes) → strncmp (w ++ r) w (length w) ≡ true
unfolding strncmp
strncmp-append [] r = refl
strncmp-append (x ∷ w) r = ground (arith, strncmp-append w r)
