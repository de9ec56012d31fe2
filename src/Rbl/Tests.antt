-- ===== src/Rbl/Tests.antt =====
-- The results about block lists at two networks.
use valiant.Prelude.{ℕ, ◌≡◌, true, Option, some, List, [], ◌∷◌, All}
use valiant.Prelude.Floats.{whole, whole-IsOrdered}
use valiant.Results.{create}
use valiant.BackOff.{State}
use valiant.Rbl.{Weight, netdb_success, in_network, check}
use valiant.Rbl.Heaviest.{IsFrom, AtLeast, reported, check_lem}

-- 127.0.0.0/8 and 127.0.0.2/32
abbrev weights : List (Weight whole)
weights =
    record { network = 2130706432; netmask = 4278190080; weight = 1 }
    ∷ record { network = 2130706434; netmask = 4294967295; weight = 4 }
    ∷ []

abbrev quiet : State
quiet = record {
  start = 0;
  back_off = 0;
  time_frame = 60;
  back_off_secs = 1800;
  max_back_off_secs = 86400;
  errors = 0;
  max_errors = 10;
  power = 0;
  max_power = 64;
}

check_lem_example :
    (h : Option ℕ) × (check netdb_success (2130706434 ∷ []) weights (create whole 1) 0 quiet 5 5
      ≡ some (reported (create whole 1) 0 h, quiet))
    × All
        (λ address. All (λ w. in_network address w ≡ true → AtLeast whole h w.weight) weights)
        (2130706434 ∷ [])
    × IsFrom whole (2130706434 ∷ []) weights h
check_lem_example = check_lem whole-IsOrdered (2130706434 ∷ []) weights (create whole 1) 0 quiet 5 5
