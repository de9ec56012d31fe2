-- ===== src/Lexer/Loops.antt =====
-- The two loops of each unescaping routine, on well formed UTF-8: what the first counts is what the
-- second needs (src/lexer.c).
use valiant.Prelude.{
  ℕ, ◌+◌, ◌<◌, ◌≡◌, refl, sym, ap, ◌∙◌, Bool, true, false, List, [], ◌∷◌, ◌-◌, ◌≤◌, leb, Option,
  some, ◌==◌, if◌then◌else◌, arith, Bool-cases, inl, inr,
}
use valiant.Lexer.{
  Utf8, Decoded, char, bad, add, put, prepend, unescape, done, backslash, control, ends,
  count_dquot, count_squot, write_dquot, write_squot,
}
use valiant.Lexer.Text.{closed, text_dquot, text_squot, control-cases}

-- The bytes of characters.
unfoldable pub bytes_of : Utf8 → List ℕ → ℕ
bytes_of U [] = 0
bytes_of U (c ∷ str) = U.size c + bytes_of U str

-- The characters of a string, as they are read.
unfoldable pub chars : List Decoded → List ℕ
chars [] = []
chars (bad ∷ str) = []
chars (char c t ∷ str) = c ∷ chars str

-- Every character of the string is read from as many bytes as its encoding has, which is so of UTF-8
-- that is well formed.
unfoldable pub IsWellFormed : Utf8 → List Decoded → Type 0
IsWellFormed U [] = Unit
IsWellFormed U (bad ∷ str) = ⊥
IsWellFormed U (char c t ∷ str) = (U.size c ≡ t + 1) × IsWellFormed U str

pub unescape-done :
    (tot : ℕ) (write : ℕ → Option (List ℕ)) (text : List ℕ)
    → write tot ≡ some text
    → unescape (some tot) write ≡ done tot text
unfolding unescape
unescape-done tot write text e = rw (unescape, e) refl

module _ (U : Utf8) (quot : ℕ) where
  size-control : (c : ℕ) → U.size (control c) ≡ U.size c
  size-control c = elim (control-cases c) [
    | inl e ↦ ap U.size e
    | inr (a, b) ↦ U.ascii (control c) b ∙ sym (U.ascii c a)
  ]

  -- the bytes of a text, and one for the terminator of a string that is closed
  abbrev pub needed : (closes : Bool) → List ℕ → ℕ
  needed closes text = bytes_of U text + (if closes then 1 else 0)

  pub count_dquot_lem :
      (esc : Bool) (str : List Decoded)
      → IsWellFormed U str
      → count_dquot quot esc str
        ≡ some (needed (closed quot esc (chars str)) (text_dquot quot esc (chars str)))
  unfolding count_dquot text_dquot closed bytes_of chars IsWellFormed add
  count_dquot_lem esc [] w = refl
  count_dquot_lem esc (bad ∷ str) w = absurd w
  count_dquot_lem true (char c t ∷ str) (e, w) =
      rw (count_dquot_lem false str w) (ap some (omega (arith, e, size-control c)))
  count_dquot_lem false (char c t ∷ str) (e, w) = elim (Bool-cases (ends quot c)) [
    | inl k ↦ rw (count_dquot, text_dquot, closed, k) (ap some (omega arith))
    | inr k ↦ elim (Bool-cases (c == backslash)) [
      | inl j ↦ rw (count_dquot, text_dquot, closed, k, j) (count_dquot_lem true str w)
      | inr j ↦
          rw (count_dquot, text_dquot, closed, k, j, count_dquot_lem false str w)
            (ap some (omega (arith, e)))
    ]
  ]

  pub count_squot_lem :
      (esc : Bool) (str : List Decoded)
      → IsWellFormed U str
      → count_squot quot esc str
        ≡ some (needed (closed quot esc (chars str)) (text_squot quot esc (chars str)))
  unfolding count_squot text_squot closed bytes_of chars IsWellFormed add
  count_squot_lem esc [] w = refl
  count_squot_lem esc (bad ∷ str) w = absurd w
  count_squot_lem true (char c t ∷ str) (e, w) = elim (Bool-cases (c == quot)) [
    | inl j ↦
        rw (count_squot, text_squot, closed, j, count_squot_lem false str w)
          (ap some (omega (arith, e)))
    | inr j ↦
        rw (count_squot, text_squot, closed, j, count_squot_lem false str w)
          (ap some (omega (arith, e, U.ascii backslash (omega arith))))
  ]
  count_squot_lem false (char c t ∷ str) (e, w) = elim (Bool-cases (ends quot c)) [
    | inl k ↦ rw (count_squot, text_squot, closed, k) (ap some (omega arith))
    | inr k ↦ elim (Bool-cases (c == backslash)) [
      | inl j ↦ rw (count_squot, text_squot, closed, k, j) (count_squot_lem true str w)
      | inr j ↦
          rw (count_squot, text_squot, closed, k, j, count_squot_lem false str w)
            (ap some (omega (arith, e)))
    ]
  ]

  put-fits :
      (c room : ℕ) (rest : Option (List ℕ)) (text : List ℕ)
      → 0 < U.size c
      → U.size c ≤ room
      → rest ≡ some text
      → put U c room rest ≡ some (c ∷ text)
  unfolding put prepend
  put-fits c room rest text h k e =
      let a : leb 1 (U.size c) ≡ true = ground (arith, h) in
      let b : leb (U.size c) room ≡ true = ground (arith, k) in rw (put, a, b, e) refl

  pub write_dquot_lem :
      (esc : Bool) (room : ℕ) (str : List Decoded)
      → IsWellFormed U str
      → bytes_of U (text_dquot quot esc (chars str)) ≤ room
      → write_dquot U quot esc room str ≡ some (text_dquot quot esc (chars str))
  unfolding write_dquot text_dquot bytes_of chars IsWellFormed prepend
  write_dquot_lem esc room [] w h = refl
  write_dquot_lem esc room (bad ∷ str) w h = absurd w
  write_dquot_lem true room (char c t ∷ str) (e, w) h =
      put-fits (control c) room _ _ (omega (arith, e, size-control c)) (omega (arith, h))
        (write_dquot_lem false (room - U.size (control c)) str w (omega (arith, h)))
  write_dquot_lem false room (char c t ∷ str) (e, w) h = elim (Bool-cases (ends quot c)) [
    | inl k ↦ rw (write_dquot, text_dquot, k) refl
    | inr k ↦ elim (Bool-cases (c == backslash)) [
      | inl j ↦
          let h' = rw (text_dquot, k, j) at h in
          rw (write_dquot, text_dquot, k, j) (write_dquot_lem true room str w h')
      | inr j ↦
          let h' = rw (text_dquot, k, j) at h in
          rw (write_dquot, text_dquot, k, j)
            (put-fits c room _ _ (omega (arith, e)) (omega (arith, h'))
              (write_dquot_lem false (room - U.size c) str w (omega (arith, h'))))
    ]
  ]

  pub write_squot_lem :
      (esc : Bool) (room : ℕ) (str : List Decoded)
      → IsWellFormed U str
      → bytes_of U (text_squot quot esc (chars str)) ≤ room
      → write_squot U quot esc room str ≡ some (text_squot quot esc (chars str))
  unfolding write_squot text_squot bytes_of chars IsWellFormed prepend
  write_squot_lem esc room [] w h = refl
  write_squot_lem esc room (bad ∷ str) w h = absurd w
  write_squot_lem true room (char c t ∷ str) (e, w) h = elim (Bool-cases (c == quot)) [
    | inl j ↦
        let h' = rw (text_squot, j) at h in
        rw (write_squot, text_squot, j)
          (put-fits c room _ _ (omega (arith, e)) (omega (arith, h'))
            (write_squot_lem false (room - U.size c) str w (omega (arith, h'))))
    | inr j ↦
        let h' = rw (text_squot, j) at h in
        let one = U.ascii backslash (omega arith) in
        let some_room : (room == 0) ≡ false = ground (arith, h', one) in
        let kept =
          put-fits c (room - 1) _ _ (omega (arith, e)) (omega (arith, h', one))
            (write_squot_lem false (room - 1 - U.size c) str w (omega (arith, h', one))) in
        rw (write_squot, text_squot, j, some_room, kept) refl
  ]
  write_squot_lem false room (char c t ∷ str) (e, w) h = elim (Bool-cases (ends quot c)) [
    | inl k ↦ rw (write_squot, text_squot, k) refl
    | inr k ↦ elim (Bool-cases (c == backslash)) [
      | inl j ↦
          let h' = rw (text_squot, k, j) at h in
          rw (write_squot, text_squot, k, j) (write_squot_lem true room str w h')
      | inr j ↦
          let h' = rw (text_squot, k, j) at h in
          rw (write_squot, text_squot, k, j)
            (put-fits c room _ _ (omega (arith, e)) (omega (arith, h'))
              (write_squot_lem false (room - U.size c) str w (omega (arith, h'))))
    ]
  ]
