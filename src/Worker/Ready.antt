-- ===== src/Worker/Ready.antt =====
-- Dependencies of stages and checks in `vt_worker` (src/worker.c), and the dictionaries that are
-- evaluated one turn ahead.
use valiant.Prelude.{
  ℕ, ◌≡◌, ◌≢◌, refl, Bool, true, false, not, ◌&&◌, ◌||◌, none, some, List, [], ◌∷◌, ◌++◌,
  if◌then◌else◌, arith, All, Bool-cases, Option-cases, inl, inr,
}
use valiant.Prelude.Floats.{Floats}
use valiant.Results.{Result}
use valiant.Worker.{
  Check, listed, result_at, nonzero_at, stage_runs, check_runs, independent, eval_checks,
  add_depends, add_next,
}

listed-snoc_self : (p : ℕ) (ds : List ℕ) → listed p (ds ++ p ∷ []) ≡ true
unfolding listed
listed-snoc_self p [] = ground arith
listed-snoc_self p (d ∷ ds) = ground (arith, listed-snoc_self p ds)

listed-snoc_keep : (d p : ℕ) (ds : List ℕ) → listed d ds ≡ true → listed d (ds ++ p ∷ []) ≡ true
unfolding listed
listed-snoc_keep d p [] h = ground arith
listed-snoc_keep d p (x ∷ ds) h = ground (arith, listed-snoc_keep d p ds)

pub All-map : (P Q : ℕ → Type 0) → ((d : ℕ) → P d → Q d) → (ds : List ℕ) → All P ds → All Q ds
All-map P Q f [] a = tt
All-map P Q f (d ∷ ds) (p, a) = (f d p, All-map P Q f ds a)

module _ {F : Floats} where
  -- whether all of these are ready
  unfoldable pub all_ready : Result F → List ℕ → Bool
  all_ready res [] = true
  all_ready res (pos ∷ depends) = (result_at res pos).ready && all_ready res depends

  -- A stage runs where all of its dependencies are ready, whatever points they have, and where one of
  -- them is not the program panics: a stage never counts as failed.
  pub stage_runs_lem :
      (res : Result F) (depends : List ℕ)
      → stage_runs res true depends ≡ (if all_ready res depends then some true else none)
  unfolding stage_runs all_ready
  stage_runs_lem res [] = refl
  stage_runs_lem res (pos ∷ depends) = elim (Bool-cases (result_at res pos).ready) [
    | inr e ↦ rw (stage_runs, all_ready, e) refl
    | inl e ↦ elim (Bool-cases (nonzero_at res pos)) [
      | inl k ↦ rw (stage_runs, all_ready, e, k) (stage_runs_lem res depends)
      | inr k ↦ rw (stage_runs, all_ready, e, k) (stage_runs_lem res depends)
    ]
  ]

  -- What the checks of these depend on is ready.
  unfoldable pub DependsReady : Result F → List Check → Type 0
  DependsReady res checks = All (λ c. All (λ d. (result_at res d).ready ≡ true) c.depends) checks

  check_runs-some :
      (res : Result F) (run : Bool) (depends : List ℕ)
      → All (λ d. (result_at res d).ready ≡ true) depends
      → check_runs res run depends ≢ none
  unfolding check_runs
  check_runs-some res run [] r = ground arith
  check_runs-some res true (d ∷ depends) r = ground arith
  check_runs-some res false (d ∷ depends) (e, r) =
      rw (check_runs, e) (check_runs-some res (nonzero_at res d) depends r)

  pub eval_checks-some :
      (res : Result F) (checks : List Check) (acc : F.Float × List ℕ)
      → DependsReady res checks
      → eval_checks res checks acc ≢ none
  unfolding eval_checks DependsReady
  eval_checks-some res [] acc r = ground arith
  eval_checks-some res (c ∷ checks) acc (k, r) =
      elim (Option-cases (check_runs res (independent c) c.depends)) [
        | inl e ↦ absurd (check_runs-some res (independent c) c.depends k e)
        | inr (run, e) ↦ rw (eval_checks, e) (eval_checks-some res checks _ r)
      ]

  -- A dictionary that is ready or will be evaluated.
  abbrev pub Covered : Result F → List ℕ → ℕ → Type 0
  Covered res ds d = ((result_at res d).ready || listed d ds) ≡ true

  if-Covered :
      (res : Result F) (b : Bool) (p : ℕ) (ds : List ℕ) (d : ℕ)
      → Covered res ds d
      → Covered res (if b then ds ++ p ∷ [] else ds) d
  if-Covered res false p ds d h = h
  if-Covered res true p ds d h = ground (arith, listed-snoc_keep d p ds)

  add_depends-keep :
      (res : Result F) (depends ds : List ℕ) (d : ℕ)
      → Covered res ds d
      → Covered res (add_depends res depends ds) d
  unfolding add_depends
  add_depends-keep res [] ds d h = h
  add_depends-keep res (p ∷ depends) ds d h =
      add_depends-keep res depends _ d
        (if-Covered res (not (listed p ds) && not (result_at res p).ready) p ds d h)

  added-Covered :
      (res : Result F) (p : ℕ) (ds : List ℕ)
      → Covered res
          (if not (listed p ds) && not (result_at res p).ready then ds ++ p ∷ [] else ds)
          p
  added-Covered res p ds = ground (arith, listed-snoc_self p ds)

  add_depends-Covered :
      (res : Result F) (depends ds : List ℕ)
      → All (Covered res (add_depends res depends ds)) depends
  unfolding add_depends
  add_depends-Covered res [] ds = tt
  add_depends-Covered res (p ∷ depends) ds =
      (add_depends-keep res depends _ p (added-Covered res p ds), add_depends-Covered res depends _)

  pub add_next-keep :
      (res : Result F) (checks : List Check) (ds : List ℕ) (d : ℕ)
      → Covered res ds d
      → Covered res (add_next res checks ds) d
  unfolding add_next
  add_next-keep res [] ds d h = h
  add_next-keep res (c ∷ checks) ds d h =
      add_next-keep res checks _ d (add_depends-keep res c.depends ds d h)

  pub add_next-Covered :
      (res : Result F) (checks : List Check) (ds : List ℕ)
      → All (λ c. All (Covered res (add_next res checks ds)) c.depends) checks
  unfolding add_next
  add_next-Covered res [] ds = tt
  add_next-Covered res (c ∷ checks) ds = (
    All-map _ _ (add_next-keep res checks (add_depends res c.depends ds)) c.depends
        (add_depends-Covered res c.depends ds),
    add_next-Covered res checks (add_depends res c.depends ds),
  )
