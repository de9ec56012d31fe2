-- ===== src/Config/Inserted.antt =====
-- An array of options after an option is put into it (src/config.c).
use valiant.Prelude.{
  ℕ, zero, suc, ◌+◌, ◌-◌, ◌≤◌, ◌<◌, ◌≡◌, refl, sym, ap, ◌∙◌, true, List, [], ◌∷◌, ◌++◌, lt→ltb,
  length, length-append, set, take, drop, drop-append, arith,
}
use valiant.Config.Types.{ok, Cell, item, hole, junk, load, memmove, entry}
use valiant.Config.Tree.{
  Config, config, body_none, body_file, body_sec, body_opt, to_list, of_list, body_of,
}
use valiant.Config.Sections.{insert_opt, put_opt}
use valiant.Config.Lookup.{opts_of, with_opts}
use valiant.Config.Moves.{
  length-take, length-load, length-memmove, entry-set, entry-set_ne, entry-memmove,
}
use valiant.Config.Shifts.{entry-append_left, entry-left, entry-memmove_rest}
use valiant.Prelude.{length-set}

module _ {Double : Type 0} where
  pub to_list-of_list : (cells : List (Cell (Config Double))) → to_list (of_list cells) ≡ cells
  unfolding to_list of_list
  to_list-of_list [] = refl
  to_list-of_list (item c ∷ cells) = ap (λ l. item c ∷ l) (to_list-of_list cells)
  to_list-of_list (hole h ∷ cells) = ap (λ l. hole h ∷ l) (to_list-of_list cells)

  -- A section or a file holds the options that it is given.
  pub opts_of-with_opts :
      (sec : Config Double) (old cells : List (Cell (Config Double)))
      → opts_of (body_of sec) ≡ ok old
      → opts_of (body_of (with_opts sec cells)) ≡ ok cells
  unfolding opts_of with_opts body_of
  opts_of-with_opts (config name flags l c body_none) old cells h = cc
  opts_of-with_opts (config name flags l c (body_opt opt)) old cells h = cc
  opts_of-with_opts (config name flags l c (body_file was)) old cells h =
      ap ok (to_list-of_list cells)
  opts_of-with_opts (config name flags l c (body_sec title was)) old cells h =
      ap ok (to_list-of_list cells)

module _ {ℓ} {A : Type ℓ} where
  set-append : (l r : List A) (i : ℕ) (x : A) → i < length l → set (l ++ r) i x ≡ set l i x ++ r
  set-append [] r i x h = elim h [ ]
  set-append (y ∷ l) r zero x h = refl
  set-append (y ∷ l) r (suc i) x h = ap (λ t. y ∷ t) (set-append l r i x (omega arith))

  append_assoc : (a b c : List A) → a ++ (b ++ c) ≡ (a ++ b) ++ c
  append_assoc [] b c = refl
  append_assoc (x ∷ a) b c = ap (λ t. x ∷ t) (append_assoc a b c)

module _ {Double : Type 0} where
  -- An option that is put before others: the last entry is indeterminate.
  pub insert_opt-junk :
      (cells : List (Cell (Config Double))) (at : ℕ) (o : Config Double)
      → at < length cells
      → (l : List (Cell (Config Double))) × (insert_opt cells at o ≡ l ++ hole junk ∷ [])
  unfolding insert_opt memmove
  insert_opt-junk cells at o h =
      let n = length cells in
      let longer = cells ++ hole junk ∷ [] in
      let a = take at longer in
      let b = load (n - at) (drop (at + 1) longer) in
      let la : length a ≡ at =
        length-take at longer (omega (arith, length-append cells (hole junk ∷ []))) in
      let lb : length b ≡ n - at = length-load (n - at) (drop (at + 1) longer) in
      let whole : at + (n - at) ≡ n = omega arith in
      let tail : drop (at + (n - at)) longer ≡ hole junk ∷ [] =
        ap (λ k. drop k longer) whole ∙ drop-append cells (hole junk ∷ []) in
      (
        set (a ++ b) at (item o),
        rw (lt→ltb 0 (n - at) (omega arith)) (
            ap (λ t. set (a ++ (b ++ t)) at (item o)) tail
            ∙ ap (λ t. set t at (item o)) (append_assoc a b (hole junk ∷ []))
            ∙ set-append (a ++ b) (hole junk ∷ []) at (item o)
                (omega (arith, length-append a b, la, lb))),
      )

  -- The entries then, for an array of `suc n` ones.
  pub insert_opt-entries :
      (cells : List (Cell (Config Double))) (at : ℕ) (o : Config Double) (n : ℕ)
      → length cells ≡ suc n
      → at ≤ n
      → (length (insert_opt cells at o) ≡ suc (suc n))
        × ((j : ℕ) → j < at → entry (insert_opt cells at o) j ≡ entry cells j)
        × (entry (insert_opt cells at o) at ≡ item o)
        × ((j : ℕ)
            → at < j
            → j ≤ n
            → entry (insert_opt cells at o) j ≡ entry (cells ++ hole junk ∷ []) (suc j))
        × (entry (insert_opt cells at o) (suc n) ≡ hole junk)
  unfolding insert_opt
  insert_opt-entries cells at o n l le =
      let longer = cells ++ hole junk ∷ [] in
      let k = length cells - at in
      let len : length longer ≡ suc (length cells) =
        omega (arith, length-append cells (hole junk ∷ [])) in
      let moved = memmove longer at (at + 1) k in
      let m : length moved ≡ length longer =
        length-memmove longer at (at + 1) k (omega (arith, len)) in
      let whole : insert_opt cells at o ≡ set moved at (item o) =
        rw (insert_opt, lt→ltb 0 k (omega arith)) refl in
      rw whole (
        length-set moved at (item o) ∙ omega (arith, m, len, l),
        λ j h.
            entry-set_ne moved at j (item o) (omega arith)
            ∙ (entry-memmove longer at (at + 1) k j h (omega (arith, len, h))).0
            ∙ entry-append_left cells (hole junk ∷ []) j (omega (arith, h)),
        entry-set moved at (item o) (omega (arith, m, len)),
        λ j h i.
            entry-set_ne moved at j (item o) (omega (arith, h))
            ∙ entry-left longer at k j h (omega (arith, len)) (omega (arith, i, l)),
        entry-set_ne moved at (suc n) (item o) (omega arith)
            ∙ ap (λ x. entry moved x) (sym l)
            ∙ entry-memmove_rest cells at k (hole junk) (omega arith),
      )

  pub put_opt-insert :
      (cells : List (Cell (Config Double))) (at : ℕ) (o : Config Double)
      → put_opt cells true at o ≡ ok (insert_opt cells at o)
  unfolding put_opt
  put_opt-insert [] at o = refl
  put_opt-insert (c ∷ cells) at o = refl
