-- ===== src/Results.antt =====
-- The results of the dictionaries for one request, and the count of the writers that are still to
-- report (src/result.c). Every operation that the lock protects is one step.
pub mod Laws
mod Tests
use valiant.Prelude.{
  ℕ, zero, suc, ◌+◌, ◌-◌, ◌%◌, ◌^◌, Bool, true, false, List, [], ◌∷◌, map, ◌==◌, ltb, if◌then◌else◌,
  set, replicate,
}
use valiant.Prelude.Floats.{Floats}

-- `struct _vt_dict_result`; `ready` is tested against 0 only.
pub record DictResult (F : Floats) : Type 0 where
  pub ready : Bool
  pub points : F.Float

-- `struct _vt_result` without its mutex and condition variable
pub record Result (F : Floats) : Type 0 where
  pub results : List (DictResult F)
  pub nresults : ℕ
  pub writers : ℕ  -- unsigned int

abbrev pub uint_mod : ℕ
uint_mod = 2 ^ 32

module _ (F : Floats) where
  -- what `calloc` and `vt_result_reset` leave in an entry
  abbrev pub blank : DictResult F
  blank = record { ready = false; points = F.zero }

  -- `vt_result_create`, where memory is at hand
  unfoldable pub create : ℕ → Result F
  create num = record { results = replicate num blank; nresults = num; writers = 0 }

  -- `vt_result_lock`
  unfoldable pub lock : Result F → Result F
  lock res = record res { writers = (res.writers + 1) % uint_mod }

  -- `vt_result_unlock`: the result, and whether the condition is signalled
  unfoldable pub unlock : Result F → Result F × Bool
  unlock res =
      let left = if ltb 0 res.writers then res.writers - 1 else res.writers in
      (record res { writers = left }, ltb left 1)

  -- The test of `vt_result_wait`: it returns once this is true.
  unfoldable pub wait_over : Result F → Bool
  wait_over res = if ltb 0 res.writers then false else true

  -- `vt_result_update`; `pos >= 0` holds of every unsigned int
  unfoldable pub update : Result F → ℕ → F.Float → Result F
  update res pos points =
      if ltb pos res.nresults
      then record res { results = set res.results pos (record { ready = true; points = points }) }
      else res

  -- the loop of `vt_result_reset` over the first `n` entries
  reset_entries : ℕ → List (DictResult F) → List (DictResult F)
  reset_entries zero rs = rs
  reset_entries (suc n) [] = []
  reset_entries (suc n) (r ∷ rs) = blank ∷ reset_entries n rs

  -- `vt_result_reset`
  unfoldable pub reset : Result F → Result F
  unfolding reset_entries
  reset res = record res { results = reset_entries res.nresults res.results }
