-- ===== src/Async/Invariant.antt =====
-- The count of writers against the tasks that are outstanding, and what each call does to them.
use valiant.Prelude.{
  ℕ, ◌+◌, ◌<◌, ◌≡◌, refl, ◌⊎◌, inl, inr, true, Option, none, some, List, [], ◌∷◌, ◌++◌, arith,
  length, length-append, ◌≢◌, ap,
}
use valiant.Prelude.Floats.{Floats}
use valiant.Async.{refused, pushed, async_check, async_worker}
use valiant.Async.System.{System, Has, outstanding, is_ready, unreported}
use valiant.Results.{Result, uint_mod, lock, unlock, update}
use valiant.Results.Laws.{IsValid, step-IsValid, get_elem?-update}

pub record Inv (F : Floats) (s : System F) : Type 0 where
  pub valid : IsValid F s.res
  pub counted : s.res.writers ≡ outstanding s
  pub reported :
      (pos : ℕ)
      → Has pos s.asked
      → pos < s.res.nresults
      → Has pos s.pending ⊎ (Has pos s.silent ⊎ (is_ready F s.res pos ≡ true))

Has-insert : (a x : ℕ) (xs ys : List ℕ) → Has a (xs ++ (x ∷ ys)) → (a ≡ x) ⊎ Has a (xs ++ ys)
Has-insert a x [] ys h = h
Has-insert a x (y ∷ xs) ys (inl e) = inr (inl e)
Has-insert a x (y ∷ xs) ys (inr h) = elim (Has-insert a x xs ys h) [
  | inl e ↦ inl e
  | inr k ↦ inr (inr k)
]

module _ (F : Floats) where
  lock-kept :
      (res : Result F)
      → ((lock F res).results ≡ res.results) × ((lock F res).nresults ≡ res.nresults)
  unfolding lock
  lock-kept res = (refl, refl)

  lock-writers :
      (res : Result F) → res.writers + 1 < uint_mod → (lock F res).writers ≡ res.writers + 1
  unfolding lock
  lock-writers res h = omega arith

  worker-writers :
      (pos : ℕ) (report : Option F.Float) (res : Result F)
      → res.writers ≢ 0
      → (async_worker F pos report res).0.writers + 1 ≡ res.writers
  unfolding async_worker unlock update
  worker-writers pos report res h = ground arith

  worker-nresults :
      (pos : ℕ) (report : Option F.Float) (res : Result F)
      → (async_worker F pos report res).0.nresults ≡ res.nresults
  unfolding async_worker unlock update
  worker-nresults pos report res = ground arith

  worker-IsValid :
      (pos : ℕ) (report : Option F.Float) (res : Result F)
      → IsValid F res
      → IsValid F (async_worker F pos report res).0
  unfolding async_worker
  worker-IsValid pos none res v = (step-IsValid F res 0 F.zero v).1
  worker-IsValid pos (some p) res v =
      (step-IsValid F (update F res pos p) 0 F.zero (step-IsValid F res pos p v).2).1

  -- a worker takes no readiness away, and makes its own position ready if it reports
  worker-ready :
      (pos j : ℕ) (report : Option F.Float) (res : Result F)
      → IsValid F res
      → is_ready F res j ≡ true
      → is_ready F (async_worker F pos report res).0 j ≡ true
  unfolding async_worker unlock
  worker-ready pos j none res v h = h
  worker-ready pos j (some p) res v h = ground (arith, get_elem?-update F res pos j p v)

  worker-reports :
      (pos j : ℕ) (p : F.Float) (res : Result F)
      → IsValid F res
      → j < res.nresults
      → j ≡ pos
      → is_ready F (async_worker F pos (some p) res).0 j ≡ true
  unfolding async_worker unlock
  worker-reports pos j p res v h e = ground (arith, get_elem?-update F res pos j p v)

  pub pushed-Inv :
      (s : System F) (pos : ℕ)
      → outstanding s + 1 < uint_mod
      → Inv F s
      → Inv F (record s {
        res = (async_check F pushed s.res).0;
        pending = pos ∷ s.pending;
        asked = pos ∷ s.asked;
      })
  unfolding async_check
  pushed-Inv s pos room v = record {
    valid = (step-IsValid F s.res 0 F.zero v.valid).0;
    counted = omega (arith, v.counted, lock-writers s.res (omega (arith, v.counted)));
    reported = λ j a b. elim a [
      | inl e ↦ inl (inl e)
      | inr old ↦ elim (v.reported j old (rw (lock-kept s.res).1 at b)) [
        | inl p ↦ inl (inr p)
        | inr (inl q) ↦ inr (inl q)
        | inr (inr r) ↦ inr (inr (rw (lock-kept s.res).0 r))
      ]
    ];
  }

  pub refused-Inv :
      (s : System F)
      → outstanding s + 1 < uint_mod
      → Inv F s
      → Inv F (record s { res = (async_check F refused s.res).0; stuck = s.stuck + 1 })
  unfolding async_check
  refused-Inv s room v = record {
    valid = (step-IsValid F s.res 0 F.zero v.valid).0;
    counted = omega (arith, v.counted, lock-writers s.res (omega (arith, v.counted)));
    reported = λ j a b. elim (v.reported j a (rw (lock-kept s.res).1 at b)) [
      | inl p ↦ inl p
      | inr (inl q) ↦ inr (inl q)
      | inr (inr r) ↦ inr (inr (rw (lock-kept s.res).0 r))
    ];
  }

  pub depleted-Inv :
      (s : System F)
      → outstanding s + 1 < uint_mod
      → Inv F s
      → Inv F (record s { res = (async_check F refused s.res).0; freed = s.freed + 1 })
  depleted-Inv s room v =
      let w = refused-Inv s room v in
      record { valid = w.valid; counted = omega (arith, w.counted); reported = w.reported }

  pub work-Inv :
      (s : System F) (before after : List ℕ) (pos : ℕ) (report : Option F.Float)
      → s.pending ≡ before ++ (pos ∷ after)
      → Inv F s
      → Inv F (record s {
        res = (async_worker F pos report s.res).0;
        pending = before ++ after;
        silent = unreported pos report s.silent;
      })
  work-Inv s before after pos report e v =
      let len = ap length e in
      let len1 = length-append before (pos ∷ after) in
      let len2 = length-append before after in
      record {
        valid = worker-IsValid pos report s.res v.valid;
        counted = omega (
          arith,
          v.counted,
          len,
          len1,
          len2,
          worker-writers pos report s.res (omega (arith, v.counted, len, len1)),
        );
        reported = λ j a b.
            let b' = rw (worker-nresults pos report s.res) at b in
            elim (v.reported j a b') [
              | inl p ↦ elim (Has-insert j pos before after (rw e at p)) [
                | inl same ↦ inr (mine j report same b')
                | inr other ↦ inl other
              ]
              | inr (inl q) ↦ inr (inl (silent_kept j report q))
              | inr (inr r) ↦ inr (inr (worker-ready pos j report s.res v.valid r))
            ];
      }
    where
      silent_kept :
          (j : ℕ) (o : Option F.Float) → Has j s.silent → Has j (unreported pos o s.silent)
      silent_kept j none h = inr h
      silent_kept j (some p) h = h

      mine :
          (j : ℕ) (o : Option F.Float)
          → j ≡ pos
          → j < s.res.nresults
          → Has j (unreported pos o s.silent) ⊎ (is_ready F (async_worker F pos o s.res).0 j ≡ true)
      mine j none same room = inl (inl same)
      mine j (some p) same room = inr (worker-reports pos j p s.res v.valid room same)
