-- ===== src/Worker/Tests.antt =====
-- The results about the worker at two stages over two dictionaries.
use valiant.Prelude.{
  if◌then◌else◌, ℕ, zero, suc, ◌≤◌, ◌<◌, ◌≡◌, ◌≢◌, refl, true, none, some, List, [], ◌∷◌, arith,
  length, get_or, set, length-set, replicate,
}
use valiant.Prelude.Floats.{whole}
use valiant.Results.{DictResult, Result, blank, update}
use valiant.Worker.Score.{Fresh, dicts_of, total, round-total}
use valiant.Worker.{
  listed, check_dicts, add_following, round, Stage, Thresholds, round_dicts, worker, result_at,
}
use valiant.Worker.Round.{Always, Listing, round_dicts-Listing}
use valiant.Worker.Ready.{stage_runs_lem, all_ready}
use valiant.Worker.Panic.{Reports, worker-answers}
use valiant.Worker.{stage_runs}

-- The first stage has the first dictionary; the second stage has the second one, if the first one
-- gave points.
abbrev first : Stage
first = record { checks = record { dict = 0; depends = [] } ∷ []; stage_depends = [] }

abbrev second : Stage
second = record { checks = record { dict = 1; depends = 0 ∷ [] } ∷ []; stage_depends = [] }

abbrev limits : Thresholds whole
limits = record { block_threshold = 5; delay_threshold = 2 }

abbrev report : ℕ → Result whole → Result whole
report pos res = update whole res pos 1

set_self :
    (rs : List (DictResult whole)) (i : ℕ)
    → i < length rs
    → (get_or (set rs i (record { ready = true; points = 1 })) i (blank whole)).ready ≡ true
set_self [] i h = absurd (omega arith)
set_self (r ∷ rs) zero h = refl
set_self (r ∷ rs) (suc i) h = set_self rs i (omega arith)

set_keep :
    (rs : List (DictResult whole)) (i j : ℕ)
    → (get_or rs j (blank whole)).ready ≡ true
    → (get_or (set rs i (record { ready = true; points = 1 })) j (blank whole)).ready ≡ true
set_keep [] i j h = h
set_keep (r ∷ rs) zero zero h = refl
set_keep (r ∷ rs) zero (suc j) h = h
set_keep (r ∷ rs) (suc i) zero h = h
set_keep (r ∷ rs) (suc i) (suc j) h = set_keep rs i j h

report-Reports : Reports 2 report
unfolding update result_at
report-Reports = record {
  keeps = λ res pos s. ground (
    arith,
    s.entries,
    s.counted,
    length-set res.results pos (record { ready = true; points = 1 }),
  );
  reported = λ res pos s h. ground (arith, s.entries, s.counted, set_self res.results pos);
  stays = λ res pos d s h. ground (arith, s.entries, s.counted, set_keep res.results pos d);
}

abbrev unreported : Result whole
unreported = record { results = replicate 2 (blank whole); nresults = 2; writers = 0 }

worker-answers_example : worker report limits (first ∷ second ∷ []) true unreported ≢ none
worker-answers_example =
    worker-answers 2 report report-Reports limits (first ∷ second ∷ []) true unreported
      (record { entries = refl; counted = refl })
      ((refl, ((omega arith, tt), tt)), ((refl, ((omega arith, (omega arith, tt)), tt)), tt))

round_dicts-Listing_example :
    Always
      (λ out. Listing 2 unreported out.1 × (length out.1 ≤ 2))
      (round_dicts unreported (some first) (some second) 0)
round_dicts-Listing_example =
    round_dicts-Listing 2 unreported (some first) (some second) 0 ((omega arith, tt), tt)
      ((omega arith, (omega arith, tt)), tt)

stage_runs_lem_example :
    stage_runs unreported true (0 ∷ [])
    ≡ (if all_ready unreported (0 ∷ []) then some true else none)
stage_runs_lem_example = stage_runs_lem unreported (0 ∷ [])

round-total_example :
    (res' : Result whole) × (res'
      ≡ check_dicts report
          (add_following unreported (some second) (dicts_of first.checks))
          unreported)
    × (round report (some first) (some second) (2, unreported)
        ≡ some (total res' first.checks 2, res'))
unfolding Fresh result_at listed
round-total_example =
    round-total report first (some second) 2 unreported refl (refl, refl, refl, tt)
