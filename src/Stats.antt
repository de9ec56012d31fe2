-- ===== src/Stats.antt =====
-- The counters of requests and of hits (src/stats.c), and the thread that reports them. What the lock
-- protects is one step.
pub mod Runs
mod Tests
use valiant.Prelude.{
  ℕ, zero, suc, ◌+◌, ◌%◌, ◌^◌, ◌<◌, ◌≡◌, Bool, true, false, not, ◌||◌, Option, none, some, List, [],
  ◌∷◌, map, length, ◌==◌, if◌then◌else◌, Bytes,
}
use valiant.Prelude.Floats.{Floats}
use valiant.Results.{DictResult, Result}

-- `struct vt_stats_cntr_struct`; there is no name where there is no dictionary
pub record Cntr : Type 0 where
  pub name : Option Bytes
  pub hits : ℕ

-- `struct vt_stats_struct` without its lock
pub record Stats : Type 0 where
  pub dead : Bool
  pub worker : Bool
  pub ctime : ℕ
  pub mtime : ℕ
  pub nreqs : ℕ
  pub cntrs : List Cntr
  pub ncntrs : ℕ

abbrev pub ulong_mod : ℕ
ulong_mod = 2 ^ 64

-- the loop of `vt_stats_create`
unfoldable pub named : List (Option Bytes) → List Cntr
named [] = []
named (n ∷ names) = record { name = n; hits = 0 } ∷ named names

-- `vt_stats_create` for the names of the dictionaries, where memory is at hand
unfoldable pub create : (now : ℕ) → List (Option Bytes) → Stats
unfolding named
create now names = record {
  dead = false;
  worker = false;
  ctime = now;
  mtime = now;
  nreqs = 0;
  cntrs = named names;
  ncntrs = length names;
}

module _ (F : Floats) where
  -- the loop of `vt_stats_update`, for the first `n` counters
  unfoldable pub hit : ℕ → List Cntr → List (DictResult F) → List Cntr
  hit zero cs rs = cs
  hit (suc n) (c ∷ cs) (r ∷ rs) =
      (if F.is_zero r.points then c else record c { hits = (c.hits + 1) % ulong_mod }) ∷ hit n cs rs
  hit (suc n) cs rs = cs

  -- `vt_stats_update`; `none` where the program ends
  unfoldable pub update : Stats → Result F → Option Stats
  unfolding hit
  update s res =
      if s.ncntrs == res.nresults
      then some
          (record s { nreqs = (s.nreqs + 1) % ulong_mod; cntrs = hit s.ncntrs s.cntrs res.results })
      else none

-- the loop of `vt_stats_worker` over the counters, behind what it prints
unfoldable pub clear : ℕ → List Cntr → List Cntr
clear zero cs = cs
clear (suc n) [] = []
clear (suc n) (c ∷ cs) = record c { hits = 0 } ∷ clear n cs

-- the start of `vt_stats_worker`: whether the thread goes on
unfoldable pub start : Stats → Stats × Bool
start s = if s.worker || s.dead then (s, false) else (record s { worker = true }, true)

-- a round of its loop once it is woken, and the end behind the loop
unfoldable pub turn : Stats → (now : ℕ) → Stats
unfolding clear
turn s now =
    if s.dead
    then record s { worker = false }
    else record s { mtime = now; nreqs = 0; cntrs = clear s.ncntrs s.cntrs }

-- The start of `vt_stats_destroy`: the statement `stats->dead;` changes nothing.
unfoldable pub destroy_begin : Stats → Stats
destroy_begin s = s

-- the test of its loop: whether it is left
unfoldable pub destroy_over : Stats → Bool
destroy_over s = not s.worker

-- A call of one of the threads, with fewer requests than an unsigned long counts.
pub data Step (F : Floats) (s : Stats) : Stats → Type 0 where
  updates :
      (res : Result F) (t : Stats) → s.nreqs + 1 < ulong_mod → update F s res ≡ some t → Step F s t
  starts : Step F s (start s).0
  turns : (now : ℕ) → s.worker ≡ true → Step F s (turn s now)
  destroys : Step F s (destroy_begin s)

-- any number of calls
pub data Reach (F : Floats) (s : Stats) : Stats → Type 0 where
  here : Reach F s s
  next : (t u : Stats) → Reach F s t → Step F t u → Reach F s u
