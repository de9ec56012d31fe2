-- ===== src/Lexer.antt =====
-- Quoted strings of the configuration (src/lexer.c): the two routines that take the quotes and the
-- escapes from a string. A string is what `u8_mbtouc` reads from it, one call after the other;
-- libunistring, which decodes and encodes characters, is a parameter.
pub mod Loops
pub mod Text
pub mod Unescaped
mod Tests
use valiant.Prelude.{
  ℕ, ◌+◌, ◌-◌, ◌<◌, ◌≡◌, refl, leb, Option, none, some, Bool, true, false, not, ◌&&◌, ◌||◌, List,
  [], ◌∷◌, ◌==◌, if◌then◌else◌,
}

-- How many bytes `u8_uctomb` writes for a character, 0 for one that has no encoding; ASCII has one.
pub record Utf8 : Type 0 where
  pub size : ℕ → ℕ
  pub ascii : (c : ℕ) → c < 128 → size c ≡ 1

-- Encodings of one byte for every character.
abbrev pub one_byte : Utf8
one_byte = record { size = λ c. 1; ascii = λ c h. refl }

-- What a call of `u8_mbtouc` gives: a character with the bytes behind its first one, for a malformed
-- byte U+FFFD and the one byte; or a number that is negative or more than what is left.
pub data Decoded : Type 0 where
  char : (chr tail : ℕ) → Decoded
  bad : Decoded

-- '\\'
abbrev pub backslash : ℕ
backslash = 92

-- the escapes of `lexer_unesc_str_dquot`: a, b, f, n, r, t, v
unfoldable pub control : ℕ → ℕ
control c =
    if c == 97
    then 7
    else if c == 98
    then 8
    else if c == 102
    then 12
    else if c == 110
    then 10
    else if c == 114
    then 13
    else if c == 116
    then 9
    else if c == 118
    then 11
    else c

-- `chr == '\0' || chr == quot`
unfoldable pub ends : ℕ → ℕ → Bool
ends quot c = c == 0 || c == quot

-- A quote at the start is skipped by both loops: the first finds `off`, the second starts there.
unfoldable pub skip_quote : ℕ → List Decoded → List Decoded
skip_quote quot [] = []
skip_quote quot (bad ∷ str) = bad ∷ str
skip_quote quot (char c t ∷ str) = if c == quot then str else char c t ∷ str

-- `cnt += n`
unfoldable pub add : ℕ → Option ℕ → Option ℕ
add n none = none
add n (some cnt) = some (n + cnt)

-- a character in front of what is written behind it
unfoldable pub prepend : ℕ → Option (List ℕ) → Option (List ℕ)
prepend c none = none
prepend c (some text) = some (c ∷ text)

-- What a routine comes to: 0 with the bytes that are allocated and the characters that are written,
-- EINVAL, or an assertion that fails (or a byte that is written out of bounds).
pub data Outcome : Type 0 where
  done : (tot : ℕ) (text : List ℕ) → Outcome
  einval aborted : Outcome

-- The first loop of `lexer_unesc_str_dquot`, behind the quote: the bytes that are counted; `none` is
-- EINVAL.
unfoldable pub count_dquot : (quot : ℕ) → (esc : Bool) → List Decoded → Option ℕ
unfolding ends add
count_dquot quot esc [] = some 0
count_dquot quot esc (bad ∷ str) = none
count_dquot quot true (char c t ∷ str) = add (t + 1) (count_dquot quot false str)
count_dquot quot false (char c t ∷ str) =
    let escaped = count_dquot quot true str in
    let more = add (t + 1) (count_dquot quot false str) in
    if ends quot c then some 1 else if c == backslash then escaped else more

-- The first loop of `lexer_unesc_str_squot`.
unfoldable pub count_squot : (quot : ℕ) → (esc : Bool) → List Decoded → Option ℕ
unfolding ends add
count_squot quot esc [] = some 0
count_squot quot esc (bad ∷ str) = none
count_squot quot true (char c t ∷ str) =
    add ((if c == quot then 0 else 1) + (t + 1)) (count_squot quot false str)
count_squot quot false (char c t ∷ str) =
    let escaped = count_squot quot true str in
    let more = add (t + 1) (count_squot quot false str) in
    if ends quot c then some 1 else if c == backslash then escaped else more

module _ (U : Utf8) where
  -- `u8_uctomb` into `room` bytes and the assertion behind it, before the rest is written
  unfoldable pub put : ℕ → (room : ℕ) → (rest : Option (List ℕ)) → Option (List ℕ)
  unfolding prepend
  put c room rest = if leb 1 (U.size c) && leb (U.size c) room then prepend c rest else none

  -- The second loop of `lexer_unesc_str_dquot`, with `room` for `tot - cnt`: the characters that are
  -- written; `none` where an assertion fails.
  unfoldable pub write_dquot :
      (quot : ℕ) → (esc : Bool) → (room : ℕ) → List Decoded → Option (List ℕ)
  unfolding ends control put
  write_dquot quot esc room [] = some []
  write_dquot quot esc room (bad ∷ str) = none
  write_dquot quot true room (char c t ∷ str) =
      put (control c) room (write_dquot quot false (room - U.size (control c)) str)
  write_dquot quot false room (char c t ∷ str) =
      let escaped = write_dquot quot true room str in
      let more = put c room (write_dquot quot false (room - U.size c) str) in
      if ends quot c then some [] else if c == backslash then escaped else more

  -- The second loop of `lexer_unesc_str_squot`; the backslash is written without a test.
  unfoldable pub write_squot :
      (quot : ℕ) → (esc : Bool) → (room : ℕ) → List Decoded → Option (List ℕ)
  unfolding ends put prepend
  write_squot quot esc room [] = some []
  write_squot quot esc room (bad ∷ str) = none
  write_squot quot true room (char c t ∷ str) =
      let plain = put c room (write_squot quot false (room - U.size c) str) in
      let kept = put c (room - 1) (write_squot quot false (room - 1 - U.size c) str) in
      if c == quot then plain else if room == 0 then none else prepend backslash kept
  write_squot quot false room (char c t ∷ str) =
      let escaped = write_squot quot true room str in
      let more = put c room (write_squot quot false (room - U.size c) str) in
      if ends quot c then some [] else if c == backslash then escaped else more

-- the second loop behind the first one, where memory is at hand
unfoldable pub unescape : Option ℕ → (ℕ → Option (List ℕ)) → Outcome
unescape none write = einval
unescape (some tot) write = elim (write tot) [ none ↦ aborted | some text ↦ done tot text ]

-- `lexer_unesc_str_dquot` and `lexer_unesc_str_squot`
unfoldable pub unesc_str_dquot : Utf8 → ℕ → List Decoded → Outcome
unfolding count_dquot write_dquot skip_quote unescape
unesc_str_dquot U quot str =
    let rest = skip_quote quot str in
    unescape (count_dquot quot false rest) (λ tot. write_dquot U quot false tot rest)

unfoldable pub unesc_str_squot : Utf8 → ℕ → List Decoded → Outcome
unfolding count_squot write_squot skip_quote unescape
unesc_str_squot U quot str =
    let rest = skip_quote quot str in
    unescape (count_squot quot false rest) (λ tot. write_squot U quot false tot rest)
