-- ===== src/Async/Wait.antt =====
-- What `vt_result_wait` waits for, in every order of the calls.
use valiant.Prelude.{
  ◌+◌, ℕ, ◌≤◌, ◌<◌, ◌≡◌, refl, ◌⊎◌, inl, inr, ◌↔◌, true, false, List, [], ◌∷◌, arith, length, ap,
  sym, subst,
}
use valiant.Prelude.Floats.{Floats}
use valiant.Async.{async_check}
use valiant.Async.System.{
  System, Has, is_ready, Step, check_pushed, check_refused, check_depleted, check_no_memory, work,
  work_freed, Reach, here, next, start,
}
use valiant.Results.{Result, wait_over}
use valiant.Results.Laws.{IsValid}
use valiant.Async.Invariant.{Inv, pushed-Inv, refused-Inv, depleted-Inv, work-Inv}

module _ (F : Floats) where
  Step-Inv : {s t : System F} → Step F s t → t.undefined ≡ false → Inv F s → Inv F t
  unfolding async_check
  Step-Inv {s} (check_pushed pos room e) d v = subst (Inv F) (sym e) (pushed-Inv F s pos room v)
  Step-Inv {s} (check_refused room e) d v = subst (Inv F) (sym e) (refused-Inv F s room v)
  Step-Inv {s} (check_depleted room e) d v = subst (Inv F) (sym e) (depleted-Inv F s room v)
  Step-Inv {s} (check_no_memory e) d v = subst (Inv F) (sym e) v
  Step-Inv {s} (work before after pos report p e) d v =
      subst (Inv F) (sym e) (work-Inv F s before after pos report p v)
  Step-Inv (work_freed h u) d v = absurd (ground (arith, u, d))

  start-Inv : (res : Result F) → IsValid F res → res.writers ≡ 0 → Inv F (start F res)
  start-Inv res v h = record { valid = v; counted = omega arith; reported = λ j a. elim a [ ] }

  Reach-Inv : {s t : System F} → Inv F s → Reach F s t → t.undefined ≡ false → Inv F t
  Reach-Inv v here d = v
  Reach-Inv v (next r k st) d = Step-Inv st d (Reach-Inv v r k)

  Step-failed :
      {s t : System F} → Step F s t → t.undefined ≡ false → s.stuck + s.freed ≤ t.stuck + t.freed
  Step-failed (check_pushed pos room e) d = omega (arith, ap (λ x. x.stuck) e, ap (λ x. x.freed) e)
  Step-failed (check_refused room e) d = omega (arith, ap (λ x. x.stuck) e, ap (λ x. x.freed) e)
  Step-failed (check_depleted room e) d = omega (arith, ap (λ x. x.stuck) e, ap (λ x. x.freed) e)
  Step-failed (check_no_memory e) d = omega (arith, ap (λ x. x.stuck) e, ap (λ x. x.freed) e)
  Step-failed (work before after pos report p e) d =
      omega (arith, ap (λ x. x.stuck) e, ap (λ x. x.freed) e)
  Step-failed (work_freed h u) d = absurd (ground (arith, u, d))

  failed-le :
      {s t : System F} → Reach F s t → t.undefined ≡ false → s.stuck + s.freed ≤ t.stuck + t.freed
  failed-le here d = omega arith
  failed-le (next r k st) d = omega (arith, failed-le r k, Step-failed st d)

  wait-Inv :
      {s : System F}
      → Inv F s
      → wait_over F s.res ≡ true
      → (s.pending ≡ []) × (s.stuck ≡ 0) × (s.freed ≡ 0)
  unfolding wait_over
  wait-Inv {s} v h = (
    empty s.pending (ground (arith, v.counted)),
    ground (arith, v.counted),
    ground (arith, v.counted),
  )
    where
      empty : (xs : List ℕ) → length xs ≡ 0 → xs ≡ []
      empty [] e = refl
      empty (x ∷ xs) e = absurd (omega arith)

  -- In every order of the calls, as long as no worker has taken a task that was freed: the wait of
  -- `vt_result_wait` is over just when no task is outstanding and no push has failed. Then every
  -- position in range that was handed to the pool is ready, unless its check came back without a
  -- report. (No writer is counted before the first call, and there are fewer outstanding tasks than
  -- an unsigned int counts.)
  pub wait_over_lem :
      {res : Result F} {s : System F}
      → IsValid F res
      → res.writers ≡ 0
      → Reach F (start F res) s
      → s.undefined ≡ false
      → ((wait_over F s.res ≡ true) ↔ ((s.pending ≡ []) × (s.stuck ≡ 0) × (s.freed ≡ 0)))
        × (wait_over F s.res ≡ true
            → (pos : ℕ) → Has pos s.asked
            → pos < s.res.nresults
            → Has pos s.silent ⊎ (is_ready F s.res pos ≡ true))
  unfolding wait_over
  wait_over_lem {res} {s} v h r d =
      let inv = Reach-Inv (start-Inv res v h) r d in
      (
        (wait-Inv inv, λ (p, q, f). ground (arith, inv.counted, ap length p)),
        λ over pos a room. elim (inv.reported pos a room) [
          | inl p ↦ absurd (subst (Has pos) (wait-Inv inv over).0 p)
          | inr k ↦ k
        ],
      )

  -- Once a push has failed, with the task left in the queue or not, the wait of `vt_result_wait` is
  -- over in no state that can be reached from there before a worker takes a task that was freed:
  -- `vt_async_dict_check` has counted a writer and freed the task. (No writer is counted before the
  -- first call, and there are fewer outstanding tasks than an unsigned int counts.)
  pub refused-blocks_wait :
      {res : Result F} {s t : System F}
      → IsValid F res
      → res.writers ≡ 0
      → Reach F (start F res) s
      → s.undefined ≡ false
      → 0 < s.stuck + s.freed
      → Reach F s t
      → t.undefined ≡ false
      → wait_over F t.res ≡ false
  unfolding wait_over
  refused-blocks_wait {res} v h r k failed later d =
      let inv = Reach-Inv (Reach-Inv (start-Inv res v h) r k) later d in
      ground (arith, inv.counted, failed-le later d)
