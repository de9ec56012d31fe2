-- ===== src/Slist/Tests.antt =====
-- The results about lists at three numbers.
use valiant.Prelude.{ℕ, Bool, [], List, ◌∷◌, ltb}
use valiant.Slist.Sorted.{Sorted}

after : ℕ → ℕ → Bool
after a b = ltb b a

abbrev two : List ℕ
two = 4 ∷ 5 ∷ []
