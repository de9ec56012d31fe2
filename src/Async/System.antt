-- ===== src/Async/System.antt =====
-- The thread that evaluates a request beside the workers of its dictionaries: each step is one call.
-- `vt_thread_pool_push` may return -1 with the task in the queue or without it, and in both cases
-- `vt_async_dict_check` frees the task and leaves the writer counted. A worker that takes such a task
-- reads what was freed: its step leads to any state that is marked as `undefined`, from which there
-- are no further steps.
-- `asked`, `silent` and `stuck` record the past: the positions that were handed to the pool, those
-- whose check came back without a report, and the number of pushes that failed without leaving the
-- task behind. `freed` counts the tasks in the queue that their caller has freed.
use valiant.Prelude.{
  ℕ, ◌+◌, ◌<◌, ◌≡◌, ◌⊎◌, Bool, true, false, Option, none, some, List, [], ◌∷◌, ◌++◌, length,
  get_elem?,
}
use valiant.Prelude.Floats.{Floats}
use valiant.Async.{no_memory, refused, pushed, async_check, async_worker}
use valiant.Results.{Result, DictResult, uint_mod}

pub record System (F : Floats) : Type 0 where
  pub res : Result F
  pub pending : List ℕ
  pub asked : List ℕ
  pub silent : List ℕ
  pub stuck : ℕ
  pub freed : ℕ
  pub undefined : Bool

-- Membership, by recursion.
abbrev pub Has : ℕ → List ℕ → Type 0
Has a [] = ⊥
Has a (x ∷ xs) = (a ≡ x) ⊎ Has a xs

abbrev pub outstanding : {F : Floats} → System F → ℕ
outstanding s = length s.pending + (s.stuck + s.freed)

abbrev pub entry_ready : (F : Floats) → Option (DictResult F) → Bool
entry_ready F none = false
entry_ready F (some e) = e.ready

abbrev pub is_ready : (F : Floats) → Result F → ℕ → Bool
is_ready F res pos = entry_ready F (get_elem? res.results pos)

abbrev pub unreported : {A : Type 0} → ℕ → Option A → List ℕ → List ℕ
unreported pos none xs = pos ∷ xs
unreported pos (some _) xs = xs

-- One call. There are fewer outstanding tasks than an unsigned int counts.
pub data Step (F : Floats) (s t : System F) : Type 0 where
  check_pushed :
      (pos : ℕ)
      → outstanding s + 1 < uint_mod
      → t ≡ record s {
        res = (async_check F pushed s.res).0;
        pending = pos ∷ s.pending;
        asked = pos ∷ s.asked;
      }
      → Step F s t
  check_refused :
      outstanding s + 1 < uint_mod
      → t ≡ record s { res = (async_check F refused s.res).0; stuck = s.stuck + 1 }
      → Step F s t
  check_depleted :
      outstanding s + 1 < uint_mod
      → t ≡ record s { res = (async_check F refused s.res).0; freed = s.freed + 1 }
      → Step F s t
  check_no_memory : t ≡ record s { res = (async_check F no_memory s.res).0 } → Step F s t
  work :
      (before after : List ℕ) (pos : ℕ) (report : Option F.Float)
      → s.pending ≡ before ++ (pos ∷ after)
      → t ≡ record s {
        res = (async_worker F pos report s.res).0;
        pending = before ++ after;
        silent = unreported pos report s.silent;
      }
      → Step F s t
  work_freed : 0 < s.freed → t.undefined ≡ true → Step F s t

pub data Reach (F : Floats) (s : System F) : System F → Type 0 where
  here : Reach F s s
  next : {t u : System F} → Reach F s t → t.undefined ≡ false → Step F t u → Reach F s u

-- No task is outstanding, as before the first check of a request.
abbrev pub start : (F : Floats) → Result F → System F
start F res = record {
  res = res;
  pending = [];
  asked = [];
  silent = [];
  stuck = 0;
  freed = 0;
  undefined = false;
}
