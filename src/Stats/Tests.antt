-- ===== src/Stats/Tests.antt =====
-- The results about the statistics at a run.
use valiant.Prelude.{
  ◌⊎◌, false, ◌≡◌, refl, true, false, Option, none, some, List, [], ◌∷◌, codes, Bytes,
}
use valiant.Prelude.Floats.{whole}
use valiant.Stats.{Stats, create, start, turn, destroy_over, starts, turns, here, next}
use valiant.Stats.Runs.{Sound, Reach_lem}

abbrev names : List (Option Bytes)
names = some (codes "mx") ∷ none ∷ []

abbrev running : Stats
running = (start (create 5 names)).0

running-worker : running.worker ≡ true
unfolding start create
running-worker = refl

Reach_lem_example :
    Sound (turn running 65) × ((running.worker ≡ false) ⊎ (destroy_over (turn running 65) ≡ false))
Reach_lem_example =
    Reach_lem whole 5 names running (turn running 65) (next (create 5 names) running here starts)
      (next running (turn running 65) here (turns 65 running-worker))
