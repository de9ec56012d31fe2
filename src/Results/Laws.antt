-- ===== src/Results/Laws.antt =====
-- The entries under `vt_result_update` and `vt_result_reset`, and the count of writers (src/result.c).
use valiant.Prelude.{
  ℕ, zero, suc, ◌<◌, ◌≡◌, refl, ap, true, some, List, [], ◌∷◌, arith, ◌==◌, ltb, if◌then◌else◌,
  ◌&&◌, length, get_elem?, replicate, length-set, get_elem?-set, length-replicate,
}
use valiant.Prelude.Floats.{Floats}
use valiant.Results.{
  DictResult, Result, uint_mod, blank, create, lock, unlock, update, reset_entries, reset,
}

-- There are as many entries as `nresults` says, and the count of writers is an unsigned int.
pub record IsValid (F : Floats) (res : Result F) : Type 0 where
  pub sized : length res.results ≡ res.nresults
  pub small : res.writers < uint_mod

module _ (F : Floats) where
  -- After an update of a result with as many entries as it counts, every entry is as before, but
  -- the one at the position given, which is ready with the points given. A position out of range
  -- changes nothing.
  pub get_elem?-update :
      (res : Result F) (i j : ℕ) (p : F.Float)
      → IsValid F res
      → get_elem? (update F res i p).results j ≡ (
          if i == j && ltb j res.nresults
          then some (record { ready = true; points = p })
          else get_elem? res.results j)
  unfolding update
  get_elem?-update res i j p v =
      ground (arith, get_elem?-set res.results i j (record { ready = true; points = p }))

  pub create-IsValid : (n : ℕ) → IsValid F (create F n)
  unfolding create
  create-IsValid n = record { sized = length-replicate n (blank F); small = omega arith }

  length-reset_entries :
      (n : ℕ) (rs : List (DictResult F)) → length (reset_entries F n rs) ≡ length rs
  unfolding reset_entries
  length-reset_entries zero rs = refl
  length-reset_entries (suc n) [] = refl
  length-reset_entries (suc n) (r ∷ rs) = ap suc (length-reset_entries n rs)

  reset_entries_all :
      (n : ℕ) (rs : List (DictResult F))
      → length rs ≡ n
      → reset_entries F n rs ≡ replicate n (blank F)
  unfolding reset_entries
  reset_entries_all zero [] h = refl
  reset_entries_all (suc n) [] h = absurd (omega arith)
  reset_entries_all zero (r ∷ rs) h = absurd (omega arith)
  reset_entries_all (suc n) (r ∷ rs) h =
      ap (λ l. blank F ∷ l) (reset_entries_all n rs (omega arith))

  -- Every operation keeps as many entries as `nresults` says and the count of writers below 2^32.
  pub step-IsValid :
      (res : Result F) (i : ℕ) (p : F.Float)
      → IsValid F res
      → IsValid F (lock F res)
        × IsValid F (unlock F res).0
        × IsValid F (update F res i p)
        × IsValid F (reset F res)
  unfolding lock unlock update reset
  step-IsValid res i p v = ground (
    arith,
    length-set res.results i (record { ready = true; points = p }),
    length-reset_entries res.nresults res.results,
  )

  -- A reset of a result with as many entries as it counts leaves the entries of a new result of
  -- that size.
  pub reset-eq-create :
      (res : Result F) → IsValid F res → (reset F res).results ≡ (create F res.nresults).results
  unfolding reset create
  reset-eq-create res v = reset_entries_all res.nresults res.results v.sized
