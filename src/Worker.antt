-- ===== src/Worker.antt =====
-- The worker (src/worker.c): the stages of checks over one request, the score, and the response.
pub mod Distinct
pub mod Round
pub mod Ready
pub mod Panic
pub mod Score
pub mod Verdict
mod Tests
use valiant.Prelude.{
  ℕ, Bool, true, false, not, ◌&&◌, ◌||◌, Option, none, some, List, [], ◌∷◌, ◌++◌, ◌==◌,
  if◌then◌else◌, get_or,
}
use valiant.Prelude.Floats.{Floats}
use valiant.Results.{DictResult, Result, blank, reset}

-- `struct _vt_check`
pub record Check : Type 0 where
  pub dict : ℕ
  pub depends : List ℕ

-- `struct _vt_stage`
pub record Stage : Type 0 where
  pub checks : List Check
  pub stage_depends : List ℕ

-- The thresholds of `struct _vt_context`, converted to float for the comparison with the score.
pub record Thresholds (F : Floats) : Type 0 where
  pub block_threshold : F.Float
  pub delay_threshold : F.Float

-- What is written to the connection.
pub data Response : Type 0 where
  error_resp block_resp delay_resp allow_resp : Response

-- The loops that look for `pos` in `dicts`.
unfoldable pub listed : ℕ → List ℕ → Bool
listed pos [] = false
listed pos (d ∷ dicts) = d == pos || listed pos dicts

-- `check->ndepends ? 0 : 1`
unfoldable pub independent : Check → Bool
independent c = elim c.depends [ [] ↦ true | _ ↦ false ]

module _ {F : Floats} where
  -- `res->results[pos]`
  unfoldable pub result_at : Result F → ℕ → DictResult F
  result_at res pos = get_or res.results pos (blank F)

  -- `if (points)`
  unfoldable pub nonzero_at : Result F → ℕ → Bool
  nonzero_at res pos = not (F.is_zero (result_at res pos).points)

  -- The loop over the dependencies of a stage, which goes on while `run` is set; `none` is a panic.
  unfoldable pub stage_runs : Result F → Bool → List ℕ → Option Bool
  stage_runs res run [] = some run
  stage_runs res false (pos ∷ depends) = some false
  stage_runs res true (pos ∷ depends) =
      if (result_at res pos).ready
      then stage_runs res (if nonzero_at res pos then true else true) depends
      else none

  -- The loop over the dependencies of a check, which goes on while `run` is not set.
  unfoldable pub check_runs : Result F → Bool → List ℕ → Option Bool
  check_runs res run [] = some run
  check_runs res true (pos ∷ depends) = some true
  check_runs res false (pos ∷ depends) =
      if (result_at res pos).ready then check_runs res (nonzero_at res pos) depends else none

  -- A check that is to run: its points are added if they are there, else its dictionary is listed.
  unfoldable pub add_check : Result F → ℕ → F.Float × List ℕ → F.Float × List ℕ
  unfolding result_at listed
  add_check res pos (score, dicts) =
      if listed pos dicts
      then (score, dicts)
      else if (result_at res pos).ready
      then (F.add score (result_at res pos).points, dicts)
      else (score, dicts ++ pos ∷ [])

  unfoldable pub eval_checks : Result F → List Check → F.Float × List ℕ → Option (F.Float × List ℕ)
  eval_checks res [] acc = some acc
  eval_checks res (c ∷ checks) acc = elim (check_runs res (independent c) c.depends) [
    | none ↦ none
    | some run ↦ eval_checks res checks (if run then add_check res c.dict acc else acc)
  ]

  -- the checks of the current stage
  unfoldable pub eval_stage : Result F → Stage → F.Float → Option (F.Float × List ℕ)
  eval_stage res stage score = elim (stage_runs res true stage.stage_depends) [
    | none ↦ none
    | some run ↦ if run then eval_checks res stage.checks (score, []) else some (score, [])
  ]

  -- the dictionaries that the checks of the next stage depend on
  unfoldable pub add_depends : Result F → List ℕ → List ℕ → List ℕ
  add_depends res [] dicts = dicts
  add_depends res (pos ∷ depends) dicts =
      add_depends res depends (
        if not (listed pos dicts) && not (result_at res pos).ready
        then dicts ++ pos ∷ []
        else dicts)

  unfoldable pub add_next : Result F → List Check → List ℕ → List ℕ
  unfolding add_depends
  add_next res [] dicts = dicts
  add_next res (c ∷ checks) dicts = add_next res checks (add_depends res c.depends dicts)

  -- the scores of the checks whose dictionaries were evaluated in this turn
  unfoldable pub add_scores : Result F → List Check → List ℕ → F.Float → F.Float
  add_scores res [] dicts score = score
  add_scores res (c ∷ checks) dicts score =
      add_scores res checks dicts
        (if listed c.dict dicts then F.add score (result_at res c.dict).points else score)

  -- The score and the dictionaries of the current stage, which is none before the first.
  unfoldable pub eval_current : Result F → Option Stage → F.Float → Option (F.Float × List ℕ)
  eval_current res none score = some (score, [])
  eval_current res (some stage) score = eval_stage res stage score

  unfoldable pub add_following : Result F → Option Stage → List ℕ → List ℕ
  add_following res none dicts = dicts
  add_following res (some stage) dicts = add_next res stage.checks dicts

  unfoldable pub add_current : Result F → Option Stage → List ℕ → F.Float → F.Float
  add_current res none dicts score = score
  add_current res (some stage) dicts score = add_scores res stage.checks dicts score

  -- The dictionaries that one turn of the loop over the stages evaluates, and the score before that.
  unfoldable pub round_dicts :
      Result F → Option Stage → Option Stage → F.Float → Option (F.Float × List ℕ)
  round_dicts res current next score = elim (eval_current res current score) [
    | none ↦ none
    | some (score', dicts) ↦ some (score', add_following res next dicts)
  ]

  -- What the worker answers to a score.
  unfoldable pub verdict : Thresholds F → F.Float → Response
  verdict t score =
      if not (F.is_zero t.block_threshold) && F.at_least score t.block_threshold
      then block_resp
      else if not (F.is_zero t.delay_threshold) && F.at_least score t.delay_threshold
      then delay_resp
      else allow_resp

  -- The dictionaries of the context: what the check of the one at a position has made of the result
  -- when `vt_result_wait` returns.
  module _ (dict_check : ℕ → Result F → Result F) where
    unfoldable pub check_dicts : List ℕ → Result F → Result F
    check_dicts [] res = res
    check_dicts (pos ∷ dicts) res = check_dicts dicts (dict_check pos res)

    -- one turn of the loop over the stages
    unfoldable pub round :
        Option Stage → Option Stage → F.Float × Result F → Option (F.Float × Result F)
    round current next (score, res) = elim (round_dicts res current next score) [
      | none ↦ none
      | some (score', dicts) ↦
          let res' = check_dicts dicts res in some (add_current res' current dicts score', res')
    ]

    -- the loop over the stages, from the turn for `current` on
    unfoldable pub run_stages :
        Option Stage → List Stage → F.Float × Result F → Option (F.Float × Result F)
    run_stages current [] acc = round current none acc
    run_stages current (stage ∷ stages) acc = elim (round current (some stage) acc) [
      | none ↦ none
      | some acc' ↦ run_stages (some stage) stages acc'
    ]

    -- `vt_worker` from the parsing of the request on, which may fail: the response and the result
    unfoldable pub worker :
        Thresholds F → List Stage → (parsed : Bool) → Result F → Option (Response × Result F)
    worker t stages false res = some (error_resp, res)
    worker t stages true res = elim (run_stages none stages (F.zero, res)) [
      | none ↦ none
      | some (score, res') ↦ some (verdict t score, reset F res')
    ]
