-- ===== src/Worker/Panic.antt =====
-- The calls of `vt_panic` in `vt_worker` (src/worker.c), and what it takes for none to be reached.
use valiant.Prelude.{
  ℕ, ◌<◌, ◌≡◌, ◌≢◌, refl, subst, Bool, true, false, Option, none, some, List, [], ◌∷◌, ◌==◌, arith,
  length, All, Bool-cases, Option-cases, inl, inr, ==_iff,
}
use valiant.Prelude.Floats.{Floats}
use valiant.Results.{Result}
use valiant.Worker.{
  Check, Stage, Thresholds, listed, result_at, stage_runs, eval_stage, add_next, eval_current,
  add_following, add_current, round_dicts, check_dicts, round, run_stages, worker,
}
use valiant.Worker.Round.{InRange}
use valiant.Worker.Ready.{DependsReady, eval_checks-some, Covered, add_next-Covered}

-- There are `n` entries.
pub record Sized {F : Floats} (n : ℕ) (res : Result F) : Type 0 where
  pub entries : length res.results ≡ n
  pub counted : res.nresults ≡ n

-- What the worker needs of the dictionaries: a check reports for its own one, and leaves the others'
-- reports alone.
pub record Reports {F : Floats} (n : ℕ) (dict_check : ℕ → Result F → Result F) : Type 0 where
  pub keeps : (res : Result F) (pos : ℕ) → Sized n res → Sized n (dict_check pos res)
  pub reported :
      (res : Result F) (pos : ℕ)
      → Sized n res
      → pos < n
      → (result_at (dict_check pos res) pos).ready ≡ true
  pub stays :
      (res : Result F) (pos d : ℕ)
      → Sized n res
      → (result_at res d).ready ≡ true
      → (result_at (dict_check pos res) d).ready ≡ true

-- A stage without dependencies of its own, and with its dictionaries in range.
abbrev pub Plain : ℕ → Stage → Type 0
Plain n stage = (stage.stage_depends ≡ []) × InRange n stage

module _ {F : Floats} (n : ℕ) (dict_check : ℕ → Result F → Result F)
    (reports : Reports n dict_check) where
  check_dicts-Sized :
      (ds : List ℕ) (res : Result F) → Sized n res → Sized n (check_dicts dict_check ds res)
  unfolding check_dicts
  check_dicts-Sized [] res s = s
  check_dicts-Sized (p ∷ ds) res s = check_dicts-Sized ds (dict_check p res) (reports.keeps res p s)

  step-Covered :
      (p : ℕ) (ds : List ℕ) (res : Result F) (d : ℕ)
      → Sized n res
      → d < n
      → Covered res (p ∷ ds) d
      → Covered (dict_check p res) ds d
  unfolding listed
  step-Covered p ds res d s lt c = elim (Bool-cases (result_at res d).ready) [
    | inl e ↦ ground (arith, reports.stays res p d s e)
    | inr e ↦ elim (Bool-cases (p == d)) [
      | inl k ↦ ground (
        arith,
        subst (λ i. (result_at (dict_check p res) i).ready ≡ true) ((==_iff p d).0 k)
            (reports.reported res p s (ground (arith, (==_iff p d).0 k))),
      )
      | inr k ↦ ground arith
    ]
  ]

  check_dicts-ready :
      (ds : List ℕ) (res : Result F) (d : ℕ)
      → Sized n res
      → d < n
      → Covered res ds d
      → (result_at (check_dicts dict_check ds res) d).ready ≡ true
  unfolding check_dicts listed
  check_dicts-ready [] res d s lt c = ground arith
  check_dicts-ready (p ∷ ds) res d s lt c =
      check_dicts-ready ds (dict_check p res) d (reports.keeps res p s) lt
        (step-Covered p ds res d s lt c)

  depends-ready :
      (ds : List ℕ) (res : Result F)
      → Sized n res
      → (depends : List ℕ) → All (λ d. d < n) depends
      → All (Covered res ds) depends
      → All (λ d. (result_at (check_dicts dict_check ds res) d).ready ≡ true) depends
  depends-ready ds res s [] r c = tt
  depends-ready ds res s (d ∷ depends) (lt, r) (k, c) =
      (check_dicts-ready ds res d s lt k, depends-ready ds res s depends r c)

  checks-ready :
      (ds : List ℕ) (res : Result F)
      → Sized n res
      → (checks : List Check) → All (λ c. (c.dict < n) × All (λ d. d < n) c.depends) checks
      → All (λ c. All (Covered res ds) c.depends) checks
      → DependsReady (check_dicts dict_check ds res) checks
  unfolding DependsReady
  checks-ready ds res s [] r c = tt
  checks-ready ds res s (x ∷ checks) ((a, b), r) (k, c) =
      (depends-ready ds res s x.depends b k, checks-ready ds res s checks r c)

  -- What a stage needs before its turn.
  abbrev CanRun : Result F → Option Stage → Type 0
  CanRun res none = Unit
  CanRun res (some stage) = (stage.stage_depends ≡ []) × DependsReady res stage.checks

  eval_current-some :
      (res : Result F) (current : Option Stage) (score : F.Float)
      → CanRun res current
      → eval_current res current score ≢ none
  unfolding eval_current eval_stage stage_runs
  eval_current-some res none score c = ground arith
  eval_current-some res (some stage) score (e, c) =
      rw (eval_stage, e, stage_runs) (eval_checks-some res stage.checks (score, []) c)

  abbrev AllPlain : Option Stage → Type 0
  AllPlain none = Unit
  AllPlain (some stage) = Plain n stage

  following-ready :
      (res : Result F) (next : Option Stage) (ds : List ℕ)
      → Sized n res
      → AllPlain next
      → CanRun (check_dicts dict_check (add_following res next ds) res) next
  unfolding add_following
  following-ready res none ds s p = tt
  following-ready res (some stage) ds s (e, r) = (
    e,
    checks-ready (add_next res stage.checks ds) res s stage.checks r
        (add_next-Covered res stage.checks ds),
  )

  -- A turn comes to an end, and leaves the next stage ready.
  round-some :
      (current next : Option Stage) (score : F.Float) (res : Result F)
      → Sized n res
      → CanRun res current
      → AllPlain next
      → (score' : F.Float) × ((res' : Result F) × (round dict_check current next (score, res)
            ≡ some (score', res'))
          × Sized n res'
          × CanRun res' next)
  unfolding round round_dicts
  round-some current next score res s c p = elim (Option-cases (eval_current res current score)) [
    | inl e ↦ absurd (eval_current-some res current score c e)
    | inr ((score', ds), e) ↦
        let ds' = add_following res next ds in
        let res' = check_dicts dict_check ds' res in
        (
          add_current res' current ds' score',
          (
            res',
            rw (round, round_dicts, e) refl,
            check_dicts-Sized ds' res s,
            following-ready res next ds s p,
          ),
        )
  ]

  run_stages-some :
      (current : Option Stage) (stages : List Stage) (score : F.Float) (res : Result F)
      → Sized n res
      → CanRun res current
      → All (Plain n) stages
      → run_stages dict_check current stages (score, res) ≢ none
  unfolding run_stages
  run_stages-some current [] score res s c p =
      let (score', (res', e, s', c')) = round-some current none score res s c tt in
      rw e (ground arith)
  run_stages-some current (stage ∷ stages) score res s c (a, p) =
      let (score', (res', e, s', c')) = round-some current (some stage) score res s c a in
      rw (run_stages, e) (run_stages-some (some stage) stages score' res' s' c' p)

  -- The worker answers and does not panic, whether or not the request is parsed, where every
  -- dictionary reports for its own entry and leaves the others' reports alone, there is an entry
  -- for each, the stages hold positions in range, and no stage depends on a dictionary of its own
  -- (its checks may).
  pub worker-answers :
      (t : Thresholds F) (stages : List Stage) (parsed : Bool) (res : Result F)
      → Sized n res
      → All (Plain n) stages
      → worker dict_check t stages parsed res ≢ none
  unfolding worker
  worker-answers t stages false res s p = ground arith
  worker-answers t stages true res s p =
      elim (Option-cases (run_stages dict_check none stages (F.zero, res))) [
        | inl e ↦ absurd (run_stages-some none stages F.zero res s tt p e)
        | inr (out, e) ↦ rw (worker, e) (ground arith)
      ]
