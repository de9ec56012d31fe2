-- ===== src/Worker/Round.antt =====
-- The dictionaries that one turn of the loop over the stages lists (src/worker.c).
use valiant.Prelude.{
  ℕ, ◌≤◌, ◌<◌, ◌≡◌, refl, subst, Bool, true, false, not, ◌&&◌, Option, none, some, List, [], ◌∷◌,
  ◌++◌, ◌==◌, if◌then◌else◌, arith, length, All, Bool-cases, Option-cases, inl, inr,
}
use valiant.Prelude.Floats.{Floats}
use valiant.Results.{Result}
use valiant.Worker.{
  Check, Stage, listed, result_at, stage_runs, check_runs, independent, add_check, eval_checks,
  eval_stage, add_depends, add_next, eval_current, add_following, round_dicts,
}
use valiant.Worker.Distinct.{Unique, length-Unique}

-- The dictionaries of a stage, and those that its checks depend on, are positions below `n`.
abbrev pub InRange : ℕ → Stage → Type 0
InRange n stage = All (λ c. (c.dict < n) × All (λ d. d < n) c.depends) stage.checks

abbrev pub AllInRange : ℕ → Option Stage → Type 0
AllInRange n none = Unit
AllInRange n (some stage) = InRange n stage

-- A condition of what is returned, if the program goes on.
abbrev pub Always : {A : Type 0} → (A → Type 0) → Option A → Type 0
Always P none = Unit
Always P (some a) = P a

listed-snoc :
    (d p : ℕ) (ds : List ℕ)
    → listed d ds ≡ false
    → (p == d) ≡ false
    → listed d (ds ++ p ∷ []) ≡ false
unfolding listed
listed-snoc d p [] h e = ground arith
listed-snoc d p (x ∷ ds) h e = ground (arith, listed-snoc d p ds)

Unique-snoc : (p : ℕ) (ds : List ℕ) → listed p ds ≡ false → Unique ds → Unique (ds ++ p ∷ [])
unfolding Unique listed
Unique-snoc p [] h u = (refl, tt)
Unique-snoc p (d ∷ ds) h (k, u) =
    (listed-snoc d p ds k (ground arith), Unique-snoc p ds (ground arith) u)

All-snoc : (P : ℕ → Type 0) (p : ℕ) (ds : List ℕ) → P p → All P ds → All P (ds ++ p ∷ [])
All-snoc P p [] h u = (h, tt)
All-snoc P p (d ∷ ds) h (k, u) = (k, All-snoc P p ds h u)

module _ {F : Floats} (n : ℕ) (res : Result F) where
  -- What is listed for evaluation: no dictionary twice, each a position below `n`, none ready.
  pub record Listing (ds : List ℕ) : Type 0 where
    pub unique : Unique ds
    pub in_range : All (λ d. d < n) ds
    pub unready : All (λ d. (result_at res d).ready ≡ false) ds

  snoc-Listing :
      (p : ℕ) (ds : List ℕ)
      → listed p ds ≡ false
      → p < n
      → (result_at res p).ready ≡ false
      → Listing ds
      → Listing (ds ++ p ∷ [])
  snoc-Listing p ds h lt k l = record {
    unique = Unique-snoc p ds h l.unique;
    in_range = All-snoc _ p ds lt l.in_range;
    unready = All-snoc _ p ds k l.unready;
  }

  add_check-Listing :
      (p : ℕ) (score : F.Float) (ds : List ℕ)
      → p < n
      → Listing ds
      → Listing (add_check res p (score, ds)).1
  unfolding add_check
  add_check-Listing p score ds lt l = elim (Bool-cases (listed p ds)) [
    | inl e ↦ rw (add_check, e) l
    | inr e ↦ elim (Bool-cases (result_at res p).ready) [
      | inl k ↦ rw (add_check, e, k) l
      | inr k ↦ rw (add_check, e, k) (snoc-Listing p ds e lt k l)
    ]
  ]

  -- A condition of both branches of an `if` between a list and its extension.
  if-Listing :
      (b : Bool) (xs ys : List ℕ)
      → (b ≡ true → Listing xs)
      → Listing ys
      → Listing (if b then xs else ys)
  if-Listing true xs ys h l = h refl
  if-Listing false xs ys h l = l

  add_depends-Listing :
      (depends ds : List ℕ)
      → All (λ d. d < n) depends
      → Listing ds
      → Listing (add_depends res depends ds)
  unfolding add_depends
  add_depends-Listing [] ds r l = l
  add_depends-Listing (p ∷ depends) ds (lt, r) l = add_depends-Listing depends _ r (
      if-Listing (not (listed p ds) && not (result_at res p).ready) (ds ++ p ∷ []) ds
        (λ e. snoc-Listing p ds (ground arith) lt (ground arith) l) l)

  add_next-Listing :
      (checks : List Check) (ds : List ℕ)
      → All (λ c. (c.dict < n) × All (λ d. d < n) c.depends) checks
      → Listing ds
      → Listing (add_next res checks ds)
  unfolding add_next
  add_next-Listing [] ds r l = l
  add_next-Listing (c ∷ checks) ds ((a, b), r) l =
      add_next-Listing checks _ r (add_depends-Listing c.depends ds b l)

  eval_checks-Listing :
      (checks : List Check) (acc : F.Float × List ℕ)
      → All (λ c. (c.dict < n) × All (λ d. d < n) c.depends) checks
      → Listing acc.1
      → Always (λ out. Listing out.1) (eval_checks res checks acc)
  unfolding eval_checks
  eval_checks-Listing [] acc r l = l
  eval_checks-Listing (c ∷ checks) acc ((a, b), r) l =
      elim (Option-cases (check_runs res (independent c) c.depends)) [
        | inl e ↦ rw (eval_checks, e) tt
        | inr (true, e) ↦
            rw (eval_checks, e)
              (eval_checks-Listing checks _ r (add_check-Listing c.dict acc.0 acc.1 a l))
        | inr (false, e) ↦ rw (eval_checks, e) (eval_checks-Listing checks acc r l)
      ]

  nothing-Listing : Listing []
  unfolding Unique
  nothing-Listing = record { unique = tt; in_range = tt; unready = tt }

  eval_stage-Listing :
      (stage : Stage) (score : F.Float)
      → InRange n stage
      → Always (λ out. Listing out.1) (eval_stage res stage score)
  unfolding eval_stage
  eval_stage-Listing stage score r = elim (Option-cases (stage_runs res true stage.stage_depends)) [
    | inl e ↦ rw (eval_stage, e) tt
    | inr (true, e) ↦
        rw (eval_stage, e) (eval_checks-Listing stage.checks (score, []) r nothing-Listing)
    | inr (false, e) ↦ rw (eval_stage, e) nothing-Listing
  ]

  eval_current-Listing :
      (current : Option Stage) (score : F.Float)
      → AllInRange n current
      → Always (λ out. Listing out.1) (eval_current res current score)
  unfolding eval_current
  eval_current-Listing none score r = nothing-Listing
  eval_current-Listing (some stage) score r = eval_stage-Listing stage score r

  add_following-Listing :
      (next : Option Stage) (ds : List ℕ)
      → AllInRange n next
      → Listing ds
      → Listing (add_following res next ds)
  unfolding add_following
  add_following-Listing none ds r l = l
  add_following-Listing (some stage) ds r l = add_next-Listing stage.checks ds r l

  -- The dictionaries that a turn evaluates, if it does not panic, are distinct, in range and not
  -- ready, so they are no more than the array has places, one for every dictionary; the stages
  -- hold positions in range.
  pub round_dicts-Listing :
      (current next : Option Stage) (score : F.Float)
      → AllInRange n current
      → AllInRange n next
      → Always (λ out. Listing out.1 × (length out.1 ≤ n)) (round_dicts res current next score)
  unfolding round_dicts
  round_dicts-Listing current next score r k =
      let at_current = eval_current-Listing current score r in
      elim (Option-cases (eval_current res current score)) [
        | inl e ↦ rw (round_dicts, e) tt
        | inr ((s, ds), e) ↦
            let l =
              add_following-Listing next ds k
                (subst (Always (λ out. Listing out.1)) e at_current) in
            rw (round_dicts, e) (l, length-Unique n (add_following res next ds) l.unique l.in_range)
      ]
