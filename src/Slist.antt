-- ===== src/Slist.antt =====
-- Singly linked lists (src/slist.c), as the sequences of their data: a list that only its owner
-- reaches is the sequence of its cells.
pub mod Sorted
pub mod Inserted
mod Tests
use valiant.Prelude.{
  ℕ, zero, suc, ◌+◌, ◌-◌, Bool, true, false, List, [], ◌∷◌, ◌++◌, ◌==◌, ltb, if◌then◌else◌,
}
use valiant.Prelude.Int.{ℤ, pos, negsuc}

module _ {A : Type 0} where
  -- `vt_slist_length`
  unfoldable pub slist_length : List A → ℕ
  slist_length [] = 0
  slist_length (x ∷ xs) = suc (slist_length xs)

  -- The position that `vt_slist_insert` goes to: from the end for a negative one, -1 being the end.
  unfoldable pub insert_position : List A → ℤ → ℕ
  unfolding slist_length
  insert_position list (pos n) = n
  insert_position list (negsuc n) =
      if ltb (slist_length list) (suc n) then 0 else (slist_length list - suc n) + 1

  -- the loop of `vt_slist_insert` and the links that it makes
  unfoldable pub insert_at : List A → A → ℕ → List A
  insert_at [] x n = x ∷ []
  insert_at (y ∷ list) x zero = x ∷ y ∷ list
  insert_at (y ∷ list) x (suc n) = y ∷ insert_at list x n

  -- `vt_slist_insert`, where memory is at hand: the list that is there then. (What is returned is the
  -- new cell.)
  unfoldable pub insert : List A → A → ℤ → List A
  unfolding insert_position insert_at
  insert list x position = insert_at list x (insert_position list position)

  -- `vt_slist_free`: what is left of the list; 0 stands for all
  unfoldable pub free_first : ℕ → List A → List A
  free_first zero list = list
  free_first (suc num) [] = []
  free_first (suc num) (x ∷ list) = free_first num list

  unfoldable pub free : List A → ℕ → List A
  unfolding free_first
  free list zero = []
  free list (suc num) = free_first (suc num) list

  module _ (cmp : A → A → Bool) where
    -- The inner loop of `vt_slist_sort`: `sub` is the first of the least so far, `before` stands
    -- before it, and `after` between it and the rest, both without it. It gives the least one, and
    -- the others in their order. `cmp a b` is `cmp (a, b) > 0`.
    unfoldable pub take_least : A → List A → List A → List A → A × List A
    take_least sub before after [] = (sub, before ++ after)
    take_least sub before after (x ∷ rest) = elim (cmp sub x) [
      | true ↦ take_least x (before ++ (sub ∷ after)) [] rest
      | false ↦ take_least sub before (after ++ (x ∷ [])) rest
    ]

    -- The outer loop: the least cell moves to the front of what is left.
    unfoldable pub sort_loop : ℕ → List A → List A
    unfolding take_least
    sort_loop fuel [] = []
    sort_loop zero (x ∷ xs) = x ∷ xs
    sort_loop (suc fuel) (x ∷ xs) = let r = take_least x [] [] xs in r.0 ∷ sort_loop fuel r.1

    -- `vt_slist_sort`; every turn of the outer loop settles a cell
    unfoldable pub sort : List A → List A
    unfolding sort_loop slist_length
    sort list = sort_loop (slist_length list) list
