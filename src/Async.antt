-- ===== src/Async.antt =====
-- Dictionaries that are checked by another thread (src/dict.c): `vt_async_dict_check` hands a task
-- to a thread pool, `vt_async_dict_worker` runs it.
pub mod System
pub mod Invariant
pub mod Wait
mod Tests
use valiant.Prelude.{ℕ, Bool, true, false, Option, none, some}
use valiant.Prelude.Floats.{Floats}
use valiant.Results.{Result, lock, unlock, update}

-- What comes of the memory for the task and of `vt_thread_pool_push`.
pub data PushOutcome : Type 0 where
  no_memory refused pushed : PushOutcome

module _ (F : Floats) where
  -- `vt_async_dict_check`: the result, and whether 0 is returned
  unfoldable pub async_check : PushOutcome → Result F → Result F × Bool
  async_check no_memory res = (res, false)
  async_check refused res = (lock F res, false)
  async_check pushed res = (lock F res, true)

  -- `vt_async_dict_worker`; what the dictionary's own check reports, if it calls
  -- `vt_result_update` at all
  unfoldable pub async_worker : ℕ → Option F.Float → Result F → Result F × Bool
  async_worker pos none res = unlock F res
  async_worker pos (some points) res = unlock F (update F res pos points)
