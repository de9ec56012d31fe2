-- ===== src/Async/Tests.antt =====
-- A request with two dictionaries, of which one is checked by another thread.
use valiant.Prelude.{ℕ, ◌<◌, ◌≡◌, refl, ◌⊎◌, ◌↔◌, true, false, some, [], ◌∷◌, arith}
use valiant.Prelude.Floats.{whole}
use valiant.Async.{pushed, refused, async_check, async_worker}
use valiant.Async.System.{
  System, Has, is_ready, check_pushed, check_depleted, work, Reach, here, next, start,
}
use valiant.Async.Wait.{wait_over_lem, refused-blocks_wait}
use valiant.Results.{create, wait_over, lock, unlock, update}
use valiant.Results.Laws.{create-IsValid}

abbrev begin : System whole
begin = start whole (create whole 2)

abbrev asked_one : System whole
asked_one = record begin {
  res = (async_check whole pushed begin.res).0;
  pending = 1 ∷ [];
  asked = 1 ∷ [];
}

abbrev reported_one : System whole
reported_one = record asked_one {
  res = (async_worker whole 1 (some 5) asked_one.res).0;
  pending = [];
}

one_reports : Reach whole begin reported_one
one_reports =
    next (next here refl (check_pushed 1 (omega arith) refl)) refl (work [] [] 1 (some 5) refl refl)

wait_over_lem_example :
    ((wait_over whole reported_one.res ≡ true)
      ↔ ((reported_one.pending ≡ []) × (reported_one.stuck ≡ 0) × (reported_one.freed ≡ 0)))
    × (wait_over whole reported_one.res ≡ true
        → (pos : ℕ) → Has pos reported_one.asked
        → pos < reported_one.res.nresults
        → Has pos reported_one.silent ⊎ (is_ready whole reported_one.res pos ≡ true))
unfolding create
wait_over_lem_example = wait_over_lem whole (create-IsValid whole 2) refl one_reports refl

-- the report is there, and the wait is over
one_reported :
    (wait_over whole reported_one.res ≡ true) × (is_ready whole reported_one.res 1 ≡ true)
unfolding create async_check async_worker lock unlock update wait_over
one_reported = (refl, refl)

-- The task stays in the queue, and is freed.
abbrev depleted_one : System whole
depleted_one = record begin { res = (async_check whole refused begin.res).0; freed = 1 }

refused-blocks_wait_example : wait_over whole depleted_one.res ≡ false
unfolding create
refused-blocks_wait_example =
    refused-blocks_wait whole (create-IsValid whole 2) refl
      (next here refl (check_depleted (omega arith) refl)) refl (omega arith) here refl
