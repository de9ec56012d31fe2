-- ===== src/Slist/Sorted.antt =====
-- The order and the elements of what `vt_slist_sort` (src/slist.c) returns.
use valiant.Prelude.{
  ℕ, zero, suc, ◌+◌, ◌≤◌, ◌≡◌, refl, Bool, true, false, List, [], ◌∷◌, ◌++◌, if◌then◌else◌, arith,
  All, Bool-cases, inl, inr,
}
use valiant.Slist.{slist_length, take_least, sort_loop, sort}

module _ {A : Type 0} where
  -- How many elements pass a test.
  unfoldable pub count : (A → Bool) → List A → ℕ
  count p [] = 0
  count p (x ∷ xs) = let n = count p xs in if p x then suc n else n

  count-append : (p : A → Bool) (xs ys : List A) → count p (xs ++ ys) ≡ count p xs + count p ys
  unfolding count
  count-append p [] ys = omega arith
  count-append p (x ∷ xs) ys = ground (arith, count-append p xs ys)

  length-append_slist :
      (xs ys : List A) → slist_length (xs ++ ys) ≡ slist_length xs + slist_length ys
  unfolding slist_length
  length-append_slist [] ys = omega arith
  length-append_slist (x ∷ xs) ys = omega (arith, length-append_slist xs ys)

  All-append : (P : A → Type 0) (xs ys : List A) → All P xs → All P ys → All P (xs ++ ys)
  All-append P [] ys a b = b
  All-append P (x ∷ xs) ys (h, a) b = (h, All-append P xs ys a b)

  All-map : (P Q : A → Type 0) → ((x : A) → P x → Q x) → (xs : List A) → All P xs → All Q xs
  All-map P Q f [] a = tt
  All-map P Q f (x ∷ xs) (h, a) = (f x h, All-map P Q f xs a)

  -- A comparison of a total preorder: `cmp a b` says that `a` comes after `b`.
  pub record IsOrder (cmp : A → A → Bool) : Type 0 where
    pub trans : (a b c : A) → cmp a b ≡ false → cmp b c ≡ false → cmp a c ≡ false
    pub total : (a b : A) → cmp a b ≡ true → cmp b a ≡ false

  -- No element comes after one that follows it.
  unfoldable pub Sorted : (A → A → Bool) → List A → Type 0
  Sorted cmp [] = Unit
  Sorted cmp (x ∷ xs) = All (λ y. cmp x y ≡ false) xs × Sorted cmp xs

  module _ (cmp : A → A → Bool) where
    count-take_least :
        (p : A → Bool) (sub : A) (before after rest : List A)
        → count p
            ((take_least cmp sub before after rest).0 ∷ (take_least cmp sub before after rest).1)
          ≡ count p (sub ∷ []) + count p before + count p after + count p rest
    unfolding take_least count
    count-take_least p sub before after [] = ground (arith, count-append p before after)
    count-take_least p sub before after (x ∷ rest) = elim (Bool-cases (cmp sub x)) [
      | inl e ↦
          rw (take_least, e)
            (ground (
              arith,
              count-take_least p x (before ++ (sub ∷ after)) [] rest,
              count-append p before (sub ∷ after),
            ))
      | inr e ↦
          rw (take_least, e)
            (ground (
              arith,
              count-take_least p sub before (after ++ (x ∷ [])) rest,
              count-append p after (x ∷ []),
            ))
    ]

    length-take_least :
        (sub : A) (before after rest : List A)
        → slist_length (take_least cmp sub before after rest).1
          ≡ slist_length before + slist_length after + slist_length rest
    unfolding take_least slist_length
    length-take_least sub before after [] = ground (arith, length-append_slist before after)
    length-take_least sub before after (x ∷ rest) = elim (Bool-cases (cmp sub x)) [
      | inl e ↦
          rw (take_least, e)
            (ground (
              arith,
              length-take_least x (before ++ (sub ∷ after)) [] rest,
              length-append_slist before (sub ∷ after),
            ))
      | inr e ↦
          rw (take_least, e)
            (ground (
              arith,
              length-take_least sub before (after ++ (x ∷ [])) rest,
              length-append_slist after (x ∷ []),
            ))
    ]

    All-take_least :
        (P : A → Type 0) (sub : A) (before after rest : List A)
        → P sub
        → All P before
        → All P after
        → All P rest
        → P (take_least cmp sub before after rest).0
          × All P (take_least cmp sub before after rest).1
    unfolding take_least
    All-take_least P sub before after [] h a b c = (h, All-append P before after a b)
    All-take_least P sub before after (x ∷ rest) h a b (k, c) = elim (Bool-cases (cmp sub x)) [
      | inl e ↦
          rw (take_least, e)
            (All-take_least P x (before ++ (sub ∷ after)) [] rest k
              (All-append P before (sub ∷ after) a (h, b)) tt c)
      | inr e ↦
          rw (take_least, e)
            (All-take_least P sub before (after ++ (x ∷ [])) rest h a
              (All-append P after (x ∷ []) b (k, tt)) c)
    ]

    least-take_least :
        (o : IsOrder cmp) (sub : A) (before after rest : List A)
        → All (λ y. cmp sub y ≡ false) before
        → All (λ y. cmp sub y ≡ false) after
        → All
            (λ y. cmp (take_least cmp sub before after rest).0 y ≡ false)
            (take_least cmp sub before after rest).1
    unfolding take_least
    least-take_least o sub before after [] a b = All-append _ before after a b
    least-take_least o sub before after (x ∷ rest) a b = elim (Bool-cases (cmp sub x)) [
      | inl e ↦
          rw (take_least, e)
            (let weaken : (y : A) → cmp sub y ≡ false → cmp x y ≡ false =
                λ y. o.trans x sub y (o.total sub x e) in
              least-take_least o x (before ++ (sub ∷ after)) [] rest
                (All-append _ before (sub ∷ after) (All-map _ _ weaken before a)
                  (o.total sub x e, All-map _ _ weaken after b))
                tt)
      | inr e ↦
          rw (take_least, e)
            (least-take_least o sub before (after ++ (x ∷ [])) rest a
              (All-append _ after (x ∷ []) b (e, tt)))
    ]

    All-sort_loop :
        (P : A → Type 0) (fuel : ℕ) (xs : List A) → All P xs → All P (sort_loop cmp fuel xs)
    unfolding sort_loop
    All-sort_loop P fuel [] a = tt
    All-sort_loop P zero (x ∷ xs) a = a
    All-sort_loop P (suc fuel) (x ∷ xs) (h, a) =
        let (k, b) = All-take_least P x [] [] xs h tt tt a in (k, All-sort_loop P fuel _ b)

    sort_loop-Sorted :
        (o : IsOrder cmp) (fuel : ℕ) (xs : List A)
        → slist_length xs ≤ fuel
        → Sorted cmp (sort_loop cmp fuel xs)
    unfolding sort_loop Sorted slist_length
    sort_loop-Sorted o fuel [] h = tt
    sort_loop-Sorted o zero (x ∷ xs) h = absurd (omega arith)
    sort_loop-Sorted o (suc fuel) (x ∷ xs) h = (
      All-sort_loop _ fuel _ (least-take_least o x [] [] xs tt tt),
      sort_loop-Sorted o fuel _ (omega (arith, length-take_least x [] [] xs)),
    )

    count-sort_loop :
        (p : A → Bool) (fuel : ℕ) (xs : List A) → count p (sort_loop cmp fuel xs) ≡ count p xs
    unfolding sort_loop count
    count-sort_loop p fuel [] = refl
    count-sort_loop p zero (x ∷ xs) = refl
    count-sort_loop p (suc fuel) (x ∷ xs) =
        ground (
          arith,
          count-take_least p x [] [] xs,
          count-sort_loop p fuel (take_least cmp x [] [] xs).1,
        )

    pub sort-Sorted :
        (o : IsOrder cmp) (xs : List A)
        → Sorted cmp (sort cmp xs) × ((p : A → Bool) → count p (sort cmp xs) ≡ count p xs)
    unfolding sort
    sort-Sorted o xs = (
      sort_loop-Sorted o (slist_length xs) xs (omega arith),
      λ p. count-sort_loop p (slist_length xs) xs,
    )
