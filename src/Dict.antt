-- ===== src/Dict.antt =====
-- The patterns of dictionaries (src/dict.c): `%name%` stands for a member of the request, `%%` for a
-- percent sign.
pub mod Patterns
mod Tests
use valiant.Prelude.{ℕ, Bool, true, false, not, ◌||◌, List, [], ◌∷◌, ◌==◌, if◌then◌else◌, Bytes}

-- '%'
abbrev pub percent : ℕ
percent = 37

-- the loop of `vt_dict_dynamic_pattern`; `after` tells that `p` has just gone past a '%'
unfoldable pub dynamic_after : (after : Bool) → Bytes → Bool
dynamic_after false [] = false
dynamic_after true [] = true
dynamic_after false (c ∷ p) = dynamic_after (c == percent) p
dynamic_after true (c ∷ p) = not (c == percent) || dynamic_after false p

-- `vt_dict_dynamic_pattern`
unfoldable pub dynamic_pattern : Bytes → Bool
unfolding dynamic_after
dynamic_pattern s = dynamic_after false s

-- the loop of `vt_dict_unescape_pattern`; `after` tells that the byte before was a '%' that was
-- copied, so that one more is skipped
unfoldable pub unescape_after : (after : Bool) → Bytes → Bytes
unescape_after _ [] = []
unescape_after false (c ∷ p) = c ∷ unescape_after (c == percent) p
unescape_after true (c ∷ p) =
    let rest = unescape_after false p in if c == percent then rest else c ∷ rest

-- `vt_dict_unescape_pattern`, where memory is at hand
unfoldable pub unescape_pattern : Bytes → Bytes
unfolding unescape_after
unescape_pattern s = unescape_after false s
