-- ===== src/BackOff/Tests.antt =====
-- The results about the back-off at small numbers.
use valiant.Prelude.{◌≡◌, false, some, [], ◌∷◌, arith}
use valiant.BackOff.{State, init, omit}
use valiant.BackOff.Errors.{error_all, omit-error_all}

abbrev running : State
running = record {
  start = 7;
  back_off = 5;
  time_frame = 60;
  back_off_secs = 1800;
  max_back_off_secs = 86400;
  errors = 1;
  max_errors = 10;
  power = 0;
  max_power = 64;
}

omit-error_all_example :
    (u : State) × (error_all init ((10, 10) ∷ (20, 21) ∷ []) ≡ some u) × (omit u 20 ≡ false)
omit-error_all_example =
    omit-error_all 20 ((10, 10) ∷ (20, 21) ∷ []) (omega arith, (omega arith, tt))
