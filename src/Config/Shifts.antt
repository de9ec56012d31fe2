-- ===== src/Config/Shifts.antt =====
-- What stands where in an array after a move to the left by one entry (src/config.c).
use valiant.Prelude.{
  drop-append, ℕ, zero, suc, ◌+◌, ◌-◌, ◌≤◌, ◌<◌, ◌≡◌, refl, sym, ap, subst, ◌∙◌, List, [], ◌∷◌,
  ◌++◌, length, length-append, take, drop, arith,
}
use valiant.Config.Types.{Cell, hole, junk, entry, load, memmove}
use valiant.Config.Moves.{length-take, length-load, length-drop}

module _ {ℓ} {A : Type ℓ} where
  entry-append_right : (l r : List (Cell A)) (j : ℕ) → entry (l ++ r) (length l + j) ≡ entry r j
  unfolding entry
  entry-append_right [] r j = ap (entry r) (omega arith)
  entry-append_right (x ∷ l) r j =
      let e : suc (length l + j) ≡ suc (length l) + j = omega arith in
      subst (λ k. entry (x ∷ (l ++ r)) k ≡ entry r j) e (entry-append_right l r j)

  -- What is read behind the end of an array.
  entry-load : (l r : List (Cell A)) → entry (load (suc (length l)) l ++ r) (length l) ≡ hole junk
  unfolding entry load
  entry-load [] r = refl
  entry-load (x ∷ l) r = entry-load l r

  -- A move of the rest of an array to the left reads one entry too many, which stands at its end.
  pub entry-memmove_end :
      (cells : List (Cell A)) (i n : ℕ)
      → length cells ≡ suc n
      → i ≤ n
      → entry (memmove cells i (i + 1) (suc n - i)) n ≡ hole junk
  unfolding memmove
  entry-memmove_end cells i n l h =
      let source = drop (i + 1) cells in
      let m : length source ≡ n - i = omega (arith, length-drop (i + 1) cells, l) in
      let t = length-take i cells (omega (arith, l)) in
      let rest = drop (i + (suc n - i)) cells in
      let k : suc n - i ≡ suc (length source) = omega (arith, m) in
      let at : length (take i cells) + length source ≡ n = omega (arith, m, t) in
      subst (λ j. entry (take i cells ++ (load (suc n - i) source ++ rest)) j ≡ hole junk) at
        (entry-append_right (take i cells) (load (suc n - i) source ++ rest) (length source)
          ∙ subst (λ q. entry (load q source ++ rest) (length source) ≡ hole junk) (sym k)
              (entry-load source rest))

  entry-load_lt :
      (n : ℕ) (l r : List (Cell A)) (j : ℕ) → j < n → entry (load n l ++ r) j ≡ entry l j
  unfolding entry load
  entry-load_lt zero l r j h = elim h [ ]
  entry-load_lt (suc n) [] r zero h = refl
  entry-load_lt (suc n) [] r (suc j) h = entry-load_lt n [] r j (omega arith)
  entry-load_lt (suc n) (x ∷ l) r zero h = refl
  entry-load_lt (suc n) (x ∷ l) r (suc j) h = entry-load_lt n l r j (omega arith)

  entry-drop : (k : ℕ) (l : List (Cell A)) (j : ℕ) → entry (drop k l) j ≡ entry l (k + j)
  unfolding entry
  entry-drop zero l j = ap (entry l) (omega arith)
  entry-drop (suc k) [] j = refl
  entry-drop (suc k) (x ∷ l) j =
      let e : suc (k + j) ≡ suc k + j = omega arith in
      subst (λ i. entry (drop k l) j ≡ entry (x ∷ l) i) e (entry-drop k l j)

  -- What is moved to the left by one is what stood behind.
  pub entry-memmove_left :
      (cells : List (Cell A)) (i n j : ℕ)
      → i ≤ length cells
      → j < n
      → entry (memmove cells i (i + 1) n) (i + j) ≡ entry cells (i + 1 + j)
  unfolding memmove
  entry-memmove_left cells i n j h k =
      let rest = load n (drop (i + 1) cells) ++ drop (i + n) cells in
      subst (λ p. entry (take i cells ++ rest) (p + j) ≡ entry cells (i + 1 + j))
        (length-take i cells h)
        (entry-append_right (take i cells) rest j
          ∙ entry-load_lt n (drop (i + 1) cells) (drop (i + n) cells) j k
          ∙ entry-drop (i + 1) cells j)

  pub entry-left :
      (cells : List (Cell A)) (i n j : ℕ)
      → i < j
      → i ≤ length cells
      → j < i + n
      → entry (memmove cells i (i + 1) n) j ≡ entry cells (suc j)
  entry-left cells i n j h k m =
      let a : i + (j - i) ≡ j = omega (arith, h) in
      let b : i + 1 + (j - i) ≡ suc j = omega (arith, h) in
      sym (ap (entry (memmove cells i (i + 1) n)) a)
      ∙ entry-memmove_left cells i n (j - i) k (omega (arith, h, m))
      ∙ ap (entry cells) b

  pub entry-append_left :
      (l r : List (Cell A)) (j : ℕ) → j < length l → entry (l ++ r) j ≡ entry l j
  unfolding entry
  entry-append_left [] r j h = elim h [ ]
  entry-append_left (x ∷ l) r zero h = refl
  entry-append_left (x ∷ l) r (suc j) h = entry-append_left l r j (omega arith)

  -- The entry behind what is moved stays.
  pub entry-memmove_rest :
      (cells : List (Cell A)) (i n : ℕ) (c : Cell A)
      → i + n ≡ length cells
      → entry (memmove (cells ++ c ∷ []) i (i + 1) n) (length cells) ≡ c
  unfolding memmove entry
  entry-memmove_rest cells i n c e =
      let longer = cells ++ c ∷ [] in
      let a = take i longer in
      let b = load n (drop (i + 1) longer) in
      let la : length a ≡ i = length-take i longer (omega (arith, length-append cells (c ∷ []))) in
      let lb : length b ≡ n = length-load n (drop (i + 1) longer) in
      let tail : drop (i + n) longer ≡ c ∷ [] =
        ap (λ k. drop k longer) e ∙ drop-append cells (c ∷ []) in
      let at : length a + (length b + 0) ≡ length cells = omega (arith, la, lb) in
      rw tail (
        ap (entry (a ++ (b ++ c ∷ []))) (sym at)
        ∙ entry-append_right a (b ++ c ∷ []) (length b + 0)
        ∙ entry-append_right b (c ∷ []) 0)
