-- ===== src/Dict/Patterns.antt =====
-- Texts as static patterns: `vt_dict_unescape_pattern` and its inverse (src/dict.c).
use valiant.Prelude.{◌≡◌, refl, false, [], ◌∷◌, ◌==◌, if◌then◌else◌, Bytes, arith}
use valiant.Dict.{percent, dynamic_after, dynamic_pattern, unescape_after, unescape_pattern}

-- The text with its percent signs doubled.
unfoldable pub escape : Bytes → Bytes
escape [] = []
escape (c ∷ s) = let rest = escape s in if c == percent then c ∷ percent ∷ rest else c ∷ rest

dynamic-escape : (s : Bytes) → dynamic_after false (escape s) ≡ false
unfolding dynamic_after escape
dynamic-escape [] = refl
dynamic-escape (c ∷ s) = ground (arith, dynamic-escape s)

unescape-escape_after : (s : Bytes) → unescape_after false (escape s) ≡ s
unfolding unescape_after escape
unescape-escape_after [] = refl
unescape-escape_after (c ∷ s) = ground (arith, unescape-escape_after s)

-- Doubling the percent signs of a text makes a static pattern that unescapes to the text.
pub unescape-escape :
    (s : Bytes) → (dynamic_pattern (escape s) ≡ false) × (unescape_pattern (escape s) ≡ s)
unfolding dynamic_pattern unescape_pattern
unescape-escape s = (dynamic-escape s, unescape-escape_after s)

escape-unescape_after :
    (p : Bytes) → dynamic_after false p ≡ false → escape (unescape_after false p) ≡ p
unfolding dynamic_after unescape_after escape
escape-unescape_after [] h = refl
escape-unescape_after (c ∷ []) h = ground arith
escape-unescape_after (c ∷ d ∷ p) h =
    ground (arith, escape-unescape_after p, escape-unescape_after (d ∷ p))

-- Every static pattern is the escaped form of the text that it unescapes to.
escape-unescape : (p : Bytes) → dynamic_pattern p ≡ false → escape (unescape_pattern p) ≡ p
unfolding dynamic_pattern unescape_pattern
escape-unescape p h = escape-unescape_after p h
