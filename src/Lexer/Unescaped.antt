-- ===== src/Lexer/Unescaped.antt =====
-- The memory of an unescaped string, and the text that comes back (src/lexer.c).
use valiant.Prelude.{
  ℕ, ◌+◌, ◌<◌, ◌≡◌, ◌≢◌, refl, ap, ◌∙◌, true, false, ◌||◌, List, [], ◌∷◌, ◌++◌, ◌-◌, All, ◌==◌,
  arith, Bool-cases, inl, inr,
}
use valiant.Lexer.{
  write_dquot, write_squot, Utf8, Decoded, char, bad, unescape, done, backslash, control, ends,
  skip_quote, unesc_str_dquot, unesc_str_squot,
}
use valiant.Lexer.Text.{closed, escape, text_dquot, text_squot, text_dquot-escape, closed-escape}
use valiant.Lexer.Loops.{
  bytes_of, chars, IsWellFormed, unescape-done, needed, count_dquot_lem, count_squot_lem,
  write_dquot_lem, write_squot_lem,
}

same : (n : ℕ) → (n == n) ≡ true
same n = ground arith

-- Well formed UTF-8, as it is read.
unfoldable pub decoded : Utf8 → List ℕ → List Decoded
decoded U [] = []
decoded U (c ∷ str) = char c (U.size c - 1) ∷ decoded U str

chars-decoded : (U : Utf8) (str : List ℕ) → chars (decoded U str) ≡ str
unfolding chars decoded
chars-decoded U [] = refl
chars-decoded U (c ∷ str) = ap (λ l. c ∷ l) (chars-decoded U str)

decoded-IsWellFormed :
    (U : Utf8) (str : List ℕ) → All (λ c. 0 < U.size c) str → IsWellFormed U (decoded U str)
unfolding IsWellFormed decoded
decoded-IsWellFormed U [] a = tt
decoded-IsWellFormed U (c ∷ str) (h, a) = (omega (arith, h), decoded-IsWellFormed U str a)

-- What is read behind the quote.
inner-decoded :
    (U : Utf8) (quot : ℕ) (str : List ℕ) → chars (skip_quote quot (decoded U (quot ∷ str))) ≡ str
unfolding skip_quote decoded
inner-decoded U quot str = rw (skip_quote, same quot) (chars-decoded U str)

escape-All :
    (U : Utf8) (quot : ℕ) (s : List ℕ)
    → 0 < U.size quot
    → All (λ c. 0 < U.size c) s
    → All (λ c. 0 < U.size c) (escape quot s ++ quot ∷ [])
unfolding escape
escape-All U quot [] q a = (q, tt)
escape-All U quot (c ∷ s) q (h, a) = elim (Bool-cases (ends quot c || c == backslash)) [
  | inl e ↦
      rw (escape, e) (omega (arith, U.ascii backslash (omega arith)), (h, escape-All U quot s q a))
  | inr e ↦ rw (escape, e) (h, escape-All U quot s q a)
]

module _ (U : Utf8) (quot : ℕ) where
  skip-IsWellFormed :
      (str : List Decoded) → IsWellFormed U str → IsWellFormed U (skip_quote quot str)
  unfolding IsWellFormed skip_quote
  skip-IsWellFormed [] w = tt
  skip-IsWellFormed (bad ∷ str) w = absurd w
  skip-IsWellFormed (char c t ∷ str) w = elim (Bool-cases (c == quot)) [
    | inl e ↦ rw (skip_quote, e) w.1
    | inr e ↦ rw (skip_quote, e) w
  ]

  -- On well formed UTF-8 both routines return 0, no assertion of theirs fails and nothing is written
  -- out of bounds: the text that the escapes stand for is written, and the bytes that are allocated
  -- are those of this text, and one more, for the terminator, just if the string is closed within the
  -- bytes that are given. What becomes of a string that is not closed has no terminator.
  pub unesc_str-room :
      (str : List Decoded)
      → IsWellFormed U str
      → let inner = chars (skip_quote quot str) in
        let closes = closed quot false inner in
        (unesc_str_dquot U quot str
          ≡ done (needed U quot closes (text_dquot quot false inner)) (text_dquot quot false inner))
        × (unesc_str_squot U quot str
            ≡ done
                (needed U quot closes (text_squot quot false inner))
                (text_squot quot false inner))
  unfolding unesc_str_dquot unesc_str_squot unescape
  unesc_str-room str w =
      let rest = skip_quote quot str in
      let v = skip-IsWellFormed str w in
      let closes = closed quot false (chars rest) in
      let double = needed U quot closes (text_dquot quot false (chars rest)) in
      let single = needed U quot closes (text_squot quot false (chars rest)) in
      (
        rw (count_dquot_lem U quot false rest v) (
            unescape-done double (λ tot. write_dquot U quot false tot rest) _
              (write_dquot_lem U quot false double rest v (omega arith))),
        rw (count_squot_lem U quot false rest v) (
            unescape-done single (λ tot. write_squot U quot false tot rest) _
              (write_squot_lem U quot false single rest v (omega arith))),
      )

-- Any text of characters that have an encoding, written between double quotes with a backslash before
-- each quote, backslash and 0, comes back, with no error and no assertion that fails, in as many bytes
-- as it has and one for the terminator. (The quote is none of the letters that an escape gives a
-- meaning, and no backslash, and has an encoding.)
pub unesc_str_dquot-escape :
    (U : Utf8) (quot : ℕ) (s : List ℕ)
    → control quot ≡ quot
    → quot ≢ backslash
    → 0 < U.size quot
    → All (λ c. 0 < U.size c) s
    → unesc_str_dquot U quot (decoded U (quot ∷ (escape quot s ++ quot ∷ [])))
      ≡ done (bytes_of U s + 1) s
unesc_str_dquot-escape U quot s h k q a =
    let inner = escape quot s ++ quot ∷ [] in
    let wide = decoded-IsWellFormed U (quot ∷ inner) (q, escape-All U quot s q a) in
    let read = inner-decoded U quot inner in
    (unesc_str-room U quot (decoded U (quot ∷ inner)) wide).0
    ∙ rw (read, text_dquot-escape quot s h k, closed-escape quot s) refl
