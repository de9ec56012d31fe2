-- ===== src/Lexer/Tests.antt =====
-- The results about quoted strings at two of them.
use valiant.Prelude.{◌+◌, ◌≡◌, refl, false, ltb, List, [], ◌∷◌, ◌++◌, codes, if◌then◌else◌, arith}
use valiant.Lexer.{
  Utf8, Decoded, char, one_byte, done, aborted, control, skip_quote, ends, add, prepend, put,
  unescape, count_dquot, write_dquot, unesc_str_dquot, unesc_str_squot,
}
use valiant.Lexer.Text.{closed, escape, text_dquot, text_squot}
use valiant.Lexer.Loops.{bytes_of, chars, IsWellFormed, needed}
use valiant.Lexer.Unescaped.{decoded, unesc_str-room, unesc_str_dquot-escape}

-- 'it\'s'
abbrev quoted : List Decoded
quoted = char 39 0 ∷ char 105 0 ∷ char 116 0 ∷ char 92 0 ∷ char 39 0 ∷ char 115 0 ∷ char 39 0 ∷ []

quoted-IsWellFormed : IsWellFormed one_byte quoted
unfolding IsWellFormed
quoted-IsWellFormed = (refl, (refl, (refl, (refl, (refl, (refl, (refl, tt)))))))

unesc_str-room_example :
    (unesc_str_dquot one_byte 39 quoted
      ≡ done
          (needed one_byte 39
            (closed 39 false (chars (skip_quote 39 quoted)))
            (text_dquot 39 false (chars (skip_quote 39 quoted))))
          (text_dquot 39 false (chars (skip_quote 39 quoted))))
    × (unesc_str_squot one_byte 39 quoted
        ≡ done
            (needed one_byte 39
              (closed 39 false (chars (skip_quote 39 quoted)))
              (text_squot 39 false (chars (skip_quote 39 quoted))))
            (text_squot 39 false (chars (skip_quote 39 quoted))))
unesc_str-room_example = unesc_str-room one_byte 39 quoted quoted-IsWellFormed

plain_quote : control 34 ≡ 34
unfolding control
plain_quote = refl

unesc_str_dquot-escape_example :
    unesc_str_dquot one_byte 34 (decoded one_byte (34 ∷ (escape 34 (codes "a\"b") ++ 34 ∷ [])))
    ≡ done (bytes_of one_byte (codes "a\"b") + 1) (codes "a\"b")
unesc_str_dquot-escape_example =
    unesc_str_dquot-escape one_byte 34 (codes "a\"b") plain_quote (λ e. omega (arith, e))
      (omega arith) (omega arith, (omega arith, (omega arith, tt)))

-- UTF-8 for U+FFFD and for ASCII.
abbrev three_bytes : Utf8
three_bytes = record { size = λ c. if ltb c 128 then 1 else 3; ascii = λ c h. ground arith }

-- A malformed byte is read as U+FFFD, which is written as three: the assertion fails.
malformed : unesc_str_dquot three_bytes 34 (char 34 0 ∷ char 65533 0 ∷ char 34 0 ∷ []) ≡ aborted
unfolding unesc_str_dquot unescape skip_quote count_dquot write_dquot put prepend add ends
malformed = refl
