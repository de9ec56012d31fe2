-- ===== src/Slist/Inserted.antt =====
-- Positions of `vt_slist_insert` (src/slist.c), and the loop of `vt_slist_free`.
use valiant.Prelude.{ℕ, zero, suc, ◌≡◌, refl, ap, ◌∙◌, List, [], ◌∷◌, ◌++◌, arith, take, drop}
use valiant.Prelude.Int.{pos, negsuc}
use valiant.Slist.{slist_length, insert_position, insert_at, insert, free_first}

module _ {A : Type 0} where
  insert_at-split :
      (list : List A) (x : A) (n : ℕ) → insert_at list x n ≡ take n list ++ x ∷ drop n list
  unfolding insert_at
  insert_at-split [] x zero = refl
  insert_at-split [] x (suc n) = refl
  insert_at-split (y ∷ list) x zero = refl
  insert_at-split (y ∷ list) x (suc n) = ap (λ l. y ∷ l) (insert_at-split list x n)

  insert_at_end : (list : List A) (x : A) → insert_at list x (slist_length list) ≡ list ++ x ∷ []
  unfolding insert_at slist_length
  insert_at_end [] x = refl
  insert_at_end (y ∷ list) x = ap (λ l. y ∷ l) (insert_at_end list x)

  last_position : (list : List A) → insert_position list (negsuc 0) ≡ slist_length list
  unfolding insert_position slist_length
  last_position [] = ground arith
  last_position (y ∷ list) = ground arith

  -- An insertion at a position from the start puts the element behind so many others, or at the end
  -- if there are fewer; at -1 (`vt_slist_append`) it puts it at the end.
  pub insert_lem :
      (list : List A) (x : A) (n : ℕ)
      → (insert list x (pos n) ≡ take n list ++ x ∷ drop n list)
        × (insert list x (negsuc 0) ≡ list ++ x ∷ [])
  unfolding insert insert_position
  insert_lem list x n =
      (insert_at-split list x n, ap (insert_at list x) (last_position list) ∙ insert_at_end list x)

  free_first-drop : (n : ℕ) (list : List A) → free_first n list ≡ drop n list
  unfolding free_first
  free_first-drop zero list = refl
  free_first-drop (suc n) [] = refl
  free_first-drop (suc n) (x ∷ list) = free_first-drop n list
