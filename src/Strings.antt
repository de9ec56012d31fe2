-- ===== src/Strings.antt =====
-- Bytes without the locale, and the growing string (src/string.c).
pub mod Compared
pub mod Grown
mod Tests
use valiant.Prelude.{
  ℕ, zero, suc, ◌+◌, ◌-◌, ◌^◌, Bool, true, false, not, ◌&&◌, ◌||◌, Option, none, some, List, [],
  ◌∷◌, ◌++◌, ◌==◌, ltb, leb, if◌then◌else◌, Bytes, take, drop, length, char_at,
}
use valiant.Prelude.Int.{ℤ, pos, negsuc}

-- TOUPPER and TOLOWER
unfoldable pub toupper_c : ℕ → ℕ
toupper_c c = if leb 97 c && leb c 122 then c - 32 else c

unfoldable pub tolower_c : ℕ → ℕ
tolower_c c = if leb 65 c && leb c 90 then c + 32 else c

-- `todigit_c`
unfoldable pub todigit_c : ℕ → ℤ
todigit_c c =
    if leb 48 c && leb c 57
    then pos (c - 48)
    else if leb 97 c && leb c 102
    then pos (c - 97)
    else if leb 65 c && leb c 70
    then pos (c - 65)
    else negsuc 0

-- `a - b` of two bytes
unfoldable pub difference : ℕ → ℕ → ℤ
difference a b = if leb b a then pos (a - b) else negsuc (b - a - 1)

-- The loop of `strcasecmp_c`: `p1` and `p2` move on, `c1` and `c2` are made of the first bytes of the
-- strings in every turn.
unfoldable pub casecmp_loop : (s1 s2 : ℕ) → Bytes → Bytes → ℤ
unfolding difference tolower_c
casecmp_loop s1 s2 [] [] = pos 0
casecmp_loop s1 s2 [] (y ∷ p2) = difference 0 y
casecmp_loop s1 s2 (x ∷ p1) [] = difference x 0
casecmp_loop s1 s2 (x ∷ p1) (y ∷ p2) =
    let rest = casecmp_loop s1 s2 p1 p2 in
    if tolower_c s1 == tolower_c s2 then rest else difference (tolower_c s1) (tolower_c s2)

-- `strcasecmp_c`
unfoldable pub strcasecmp_c : Bytes → Bytes → ℤ
unfolding casecmp_loop
strcasecmp_c s1 s2 = casecmp_loop (char_at s1 0) (char_at s2 0) s1 s2

-- The loop of `strncasecmp_c`, the same with a count.
unfoldable pub ncasecmp_loop : (s1 s2 : ℕ) → Bytes → Bytes → ℕ → ℤ
unfolding difference tolower_c
ncasecmp_loop s1 s2 p1 p2 zero = pos 0
ncasecmp_loop s1 s2 [] [] (suc n) = pos 0
ncasecmp_loop s1 s2 [] (y ∷ p2) (suc n) = difference 0 y
ncasecmp_loop s1 s2 (x ∷ p1) [] (suc n) = difference x 0
ncasecmp_loop s1 s2 (x ∷ p1) (y ∷ p2) (suc n) =
    let rest = ncasecmp_loop s1 s2 p1 p2 n in
    if tolower_c s1 == tolower_c s2 then rest else difference (tolower_c s1) (tolower_c s2)

-- `strncasecmp_c`
unfoldable pub strncasecmp_c : Bytes → Bytes → ℕ → ℤ
unfolding ncasecmp_loop
strncasecmp_c s1 s2 n = ncasecmp_loop (char_at s1 0) (char_at s2 0) s1 s2 n

-- `string_t`: the bytes that are occupied, `cnt` of them, and the bytes that are available, `len`;
-- `allocated` tells that `buf` is not NULL.
pub record Text : Type 0 where
  pub bytes : Bytes
  pub allocated : Bool
  pub lim : ℕ
  pub len : ℕ
  pub position : ℕ

-- An operation returns 0 or an error; or one of its assertions fails and the program is aborted.
pub data Code : Type 0 where
  ok erange no_memory aborted : Code

-- `SIZE_MAX`
abbrev pub size_max : ℕ
size_max = 2 ^ 64 - 1

-- `string_clear`
abbrev pub cleared : Text
cleared = record { bytes = []; allocated = false; lim = 0; len = 0; position = 0 }

-- `string_get_buffer`, without the bytes that are not occupied, and `string_get_length`
unfoldable pub get_buffer : Text → Option Bytes
get_buffer str = if str.allocated then some (drop str.position str.bytes) else none

unfoldable pub get_length : Text → ℕ
get_length str = length str.bytes - str.position

-- `string_set_limit`
unfoldable pub set_limit : Text → ℕ → Text × Code
set_limit str lim = if ltb lim size_max then (record str { lim = lim }, ok) else (str, erange)

-- the limit that `string_set_size` works with
unfoldable pub limit_of : Text → ℕ
limit_of str = if ltb 0 str.lim && ltb str.lim size_max then str.lim else size_max - 1

-- `string_set_size`; `memory` tells that `realloc` succeeds
unfoldable pub set_size : Text → ℕ → (memory : Bool) → Text × Code
unfolding limit_of
set_size str len memory =
    if ltb (limit_of str) len
    then (str, erange)
    else if ltb str.len len
    then (if memory then (record str { allocated = true; len = len }, ok) else (str, no_memory))
    else (str, ok)

-- what `string_copy` and `string_append` do once there is room
unfoldable pub copied : Text × Code → Bytes → Text × Code
copied (str, ok) chrs = (record str { bytes = chrs }, ok)
copied (str, erange) chrs = (str, erange)
copied (str, no_memory) chrs = (str, no_memory)
copied (str, aborted) chrs = (str, aborted)

-- libunistring: `u8_check (chrs, len) == NULL`
module _ (u8_check : Bytes → Bool) where
  -- `string_is_sane (str) == 0`
  unfoldable pub is_sane : Text → Bool
  is_sane str =
      (not str.allocated && (str.len == 0 && length str.bytes == 0))
      || (leb str.position (length str.bytes)
          && (leb (length str.bytes) str.len
              && ((leb str.len str.lim || str.lim == 0) && u8_check str.bytes)))

  -- The assertions of `string_copy` and `string_append`; `chrs` is not NULL.
  unfoldable pub asserted : Text → Bytes → Bool
  unfolding is_sane
  asserted str chrs = is_sane str && (not (length chrs == 0) && u8_check chrs)

  -- `string_copy`, of as many bytes as there are in `chrs`
  unfoldable pub string_copy : Text → Bytes → (memory : Bool) → Text × Code
  unfolding copied asserted
  string_copy str chrs memory =
      if not (asserted str chrs)
      then (str, aborted)
      else if str.lim == 0 || leb str.lim (length chrs)
      then copied (set_size str (length chrs) memory) chrs
      else (str, erange)

  -- `string_append`
  unfoldable pub string_append : Text → Bytes → (memory : Bool) → Text × Code
  unfolding copied asserted
  string_append str chrs memory =
      let tot = length str.bytes + length chrs in
      if not (asserted str chrs)
      then (str, aborted)
      else if ltb (size_max - length str.bytes) (length chrs)
      then (str, erange)
      else if str.lim == 0 || leb tot str.lim
      then copied (set_size str tot memory) (str.bytes ++ chrs)
      else (str, erange)

  -- `string_construct`; no bytes stand for NULL
  unfoldable pub construct : Bytes → (memory : Bool) → Text × Code
  construct [] memory = (cleared, ok)
  construct (c ∷ chrs) memory = string_copy cleared (c ∷ chrs) memory
