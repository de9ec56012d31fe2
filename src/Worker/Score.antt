-- ===== src/Worker/Score.antt =====
-- The score of a stage whose checks have no dependencies (src/worker.c).
use valiant.Prelude.{
  ℕ, ◌≡◌, refl, ap, ◌∙◌, subst, true, false, Option, none, some, List, [], ◌∷◌, ◌++◌, map, arith,
  All,
}
use valiant.Prelude.Floats.{Floats}
use valiant.Results.{Result}
use valiant.Worker.{
  Check, Stage, listed, result_at, stage_runs, check_runs, independent, add_check, eval_checks,
  eval_stage, eval_current, add_following, add_scores, add_current, round_dicts, check_dicts, round,
}
use valiant.Worker.Ready.{add_next-keep}

listed-append_left : (d : ℕ) (xs ys : List ℕ) → listed d xs ≡ true → listed d (xs ++ ys) ≡ true
unfolding listed
listed-append_left d [] ys h = ground arith
listed-append_left d (x ∷ xs) ys h = ground (arith, listed-append_left d xs ys)

listed-middle : (d : ℕ) (xs ys : List ℕ) → listed d (xs ++ d ∷ ys) ≡ true
unfolding listed
listed-middle d [] ys = ground arith
listed-middle d (x ∷ xs) ys = ground (arith, listed-middle d xs ys)

append_nil : (xs : List ℕ) → xs ≡ xs ++ []
append_nil [] = refl
append_nil (x ∷ xs) = ap (λ l. x ∷ l) (append_nil xs)

append_one : (xs ys : List ℕ) (d : ℕ) → (xs ++ d ∷ []) ++ ys ≡ xs ++ d ∷ ys
append_one [] ys d = refl
append_one (x ∷ xs) ys d = ap (λ l. x ∷ l) (append_one xs ys d)

-- The dictionaries of checks.
unfoldable pub dicts_of : List Check → List ℕ
dicts_of checks = map (λ c. c.dict) checks

module _ {F : Floats} where
  -- The score with the points of every check added, one after another.
  unfoldable pub total : Result F → List Check → F.Float → F.Float
  total res [] score = score
  total res (c ∷ checks) score = total res checks (F.add score (result_at res c.dict).points)

  -- Checks without dependencies, on distinct dictionaries that are not ready and none of them in
  -- `before`.
  unfoldable pub Fresh : Result F → List ℕ → List Check → Type 0
  Fresh res before [] = Unit
  Fresh res before (c ∷ checks) =
      (c.depends ≡ [])
      × (listed c.dict before ≡ false)
      × ((result_at res c.dict).ready ≡ false)
      × Fresh res (before ++ c.dict ∷ []) checks

  runs_alone :
      (res : Result F) (c : Check)
      → c.depends ≡ []
      → check_runs res (independent c) c.depends ≡ some true
  unfolding check_runs independent
  runs_alone res c d = rw (independent, d, check_runs) refl

  eval_checks-Fresh :
      (res : Result F) (checks : List Check) (score : F.Float) (before : List ℕ)
      → Fresh res before checks
      → eval_checks res checks (score, before) ≡ some (score, before ++ dicts_of checks)
  unfolding eval_checks Fresh dicts_of add_check
  eval_checks-Fresh res [] score before f = ap (λ ds. some (score, ds)) (append_nil before)
  eval_checks-Fresh res (c ∷ checks) score before (d, l, r, f) =
      let runs : check_runs res (independent c) c.depends ≡ some true = runs_alone res c d in
      let add : add_check res c.dict (score, before) ≡ (score, before ++ c.dict ∷ []) =
        rw (add_check, l, r) refl in
      rw (eval_checks, runs, add)
        (eval_checks-Fresh res checks score (before ++ c.dict ∷ []) f
          ∙ ap (λ ds. some (score, ds)) (append_one before (dicts_of checks) c.dict))

  Fresh-Covered :
      (res : Result F) (checks : List Check) (before : List ℕ)
      → Fresh res before checks
      → All
          (λ c.
            (listed c.dict (before ++ dicts_of checks) ≡ true)
            × ((result_at res c.dict).ready ≡ false))
          checks
  unfolding Fresh dicts_of
  Fresh-Covered res [] before f = tt
  Fresh-Covered res (c ∷ checks) before (d, l, r, f) = (
    (listed-middle c.dict before (dicts_of checks), r),
    subst
        (λ ds. All (λ x. (listed x.dict ds ≡ true) × ((result_at res x.dict).ready ≡ false)) checks)
        (append_one before (dicts_of checks) c.dict)
        (Fresh-Covered res checks (before ++ c.dict ∷ []) f),
  )

  following-listed :
      (res : Result F) (next : Option Stage) (ds : List ℕ) (d : ℕ)
      → listed d ds ≡ true
      → (result_at res d).ready ≡ false
      → listed d (add_following res next ds) ≡ true
  unfolding add_following
  following-listed res none ds d h r = h
  following-listed res (some stage) ds d h r =
      ground (arith, r, add_next-keep res stage.checks ds d (ground (arith, h)))

  add_scores-total :
      (res : Result F) (ds : List ℕ) (checks : List Check) (score : F.Float)
      → All (λ c. listed c.dict ds ≡ true) checks
      → add_scores res checks ds score ≡ total res checks score
  unfolding add_scores total
  add_scores-total res ds [] score a = refl
  add_scores-total res ds (c ∷ checks) score (h, a) =
      rw (add_scores, h) (add_scores-total res ds checks _ a)

  All-following :
      (res : Result F) (next : Option Stage) (ds : List ℕ) (checks : List Check)
      → All (λ c. (listed c.dict ds ≡ true) × ((result_at res c.dict).ready ≡ false)) checks
      → All (λ c. listed c.dict (add_following res next ds) ≡ true) checks
  All-following res next ds [] a = tt
  All-following res next ds (c ∷ checks) ((h, r), a) =
      (following-listed res next ds c.dict h r, All-following res next ds checks a)

  -- A turn for a stage that has no dependencies, and whose checks have none, on distinct dictionaries
  -- that are not ready, evaluates these and those that the next stage depends on, and adds the points
  -- that are reported for each check to the score, once.
  pub round-total :
      (dict_check : ℕ → Result F → Result F) (stage : Stage) (next : Option Stage) (score : F.Float)
      (res : Result F)
      → stage.stage_depends ≡ []
      → Fresh res [] stage.checks
      → (res' : Result F) × (res'
          ≡ check_dicts dict_check (add_following res next (dicts_of stage.checks)) res)
        × (round dict_check (some stage) next (score, res)
            ≡ some (total res' stage.checks score, res'))
  unfolding round round_dicts eval_current eval_stage stage_runs add_current
  round-total dict_check stage next score res e f =
      let ds = dicts_of stage.checks in
      let all = add_following res next ds in
      let res' = check_dicts dict_check all res in
      let at_stage : eval_stage res stage score ≡ some (score, ds) =
        rw (eval_stage, e, stage_runs) (eval_checks-Fresh res stage.checks score [] f) in
      let at_round : round_dicts res (some stage) next score ≡ some (score, all) =
        rw (round_dicts, eval_current, at_stage) refl in
      (
        res',
        refl,
        rw (round, at_round)
            (ap (λ s. some (s, res'))
              (add_scores-total res' all stage.checks score
                (All-following res next ds stage.checks (Fresh-Covered res stage.checks [] f)))),
      )
