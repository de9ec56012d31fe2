-- ===== src/Dict/Tests.antt =====
-- The results about patterns at a small pattern.
use valiant.Prelude.{◌≡◌, refl, true, false, codes}
use valiant.Dict.{dynamic_pattern, unescape_pattern, dynamic_after}
use valiant.Dict.Patterns.{escape, unescape-escape}

unescape-escape_example :
    (dynamic_pattern (escape (codes "50% off")) ≡ false)
    × (unescape_pattern (escape (codes "50% off")) ≡ codes "50% off")
unescape-escape_example = unescape-escape (codes "50% off")

static : dynamic_pattern (codes "50%% off") ≡ false
unfolding dynamic_pattern dynamic_after
static = refl

-- A percent sign at the end makes a pattern dynamic.
trailing : dynamic_pattern (codes "50%") ≡ true
unfolding dynamic_pattern dynamic_after
trailing = refl
