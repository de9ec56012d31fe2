-- ===== src/ThreadPool/Queue.antt =====
-- The queue of the pool (src/thread_pool.c) as a sequence of tasks.
use valiant.Prelude.{
  ℕ, suc, ◌≡◌, refl, ap, ◌∙◌, Bool, not, ◌&&◌, ◌||◌, none, some, List, [], ◌∷◌, ◌++◌, arith,
  if◌then◌else◌, length, get_elem?, Bool-cases, inl, inr, length-append,
}
use valiant.Prelude.Int.{pos, incr, decr, less}
use valiant.ThreadPool.{
  enqueue_first, Pointer, worker_turn, shift_first, shift_cell, unlink, Pool, run, Cell, create,
  enqueue, queue_full, threads_depleted, start_thread, push, shift, worker, worker_idle,
}
use valiant.ThreadPool.Chain.{
  Segment, final, before, Chain, empty, between, Segment-push, Segment-set, Segment-weaken,
  get_elem?-append_last,
}

-- The pool's queue holds these tasks, and counts them.
pub record Holds {A : Type 0} (p : Pool A) (xs : List A) : Type 0 where
  pub chain : Chain p.store p.first_task p.last_task xs
  pub count : p.num_tasks ≡ pos (length xs)

module _ {A : Type 0} where
  pub create-Holds : (threads : ℕ) → Holds (create {A = A} threads) []
  unfolding create
  create-Holds threads = record { chain = empty refl refl; count = refl }

  enqueue-Holds :
      (p : Pool A) (arg : A) {xs : List A} → Holds p xs → Holds (enqueue p arg) (xs ++ arg ∷ [])
  unfolding enqueue enqueue_first incr
  enqueue-Holds p arg {xs = []} h = elim h.chain [
    | empty e f ↦ record {
      chain = rw e (
          between (length p.store) (length p.store) refl refl
            (final (omega arith) refl (get_elem?-append_last p.store _)));
      count = rw e (ap incr h.count);
    }
  ]
  enqueue-Holds p arg {xs = x ∷ xs} h = elim h.chain [
    | between a z e f g ↦ record {
      chain = rw (e, f) (between a (length p.store) refl refl (Segment-push p.store arg xs g));
      count = rw e (ap incr h.count ∙ ap pos (ap suc (omega (arith, length-append xs (arg ∷ [])))));
    }
  ]

  shift-none : (p : Pool A) → p.first_task ≡ none → shift p ≡ (none, p)
  unfolding shift shift_first shift_cell
  shift-none p e = ap (shift_first p) e

  shift-some :
      (p : Pool A) (a : ℕ) (c : Cell A)
      → p.first_task ≡ some a
      → get_elem? p.store a ≡ some (some c)
      → shift p ≡ (some c.item, unlink p a c.next)
  unfolding shift shift_first shift_cell
  shift-some p a c e g = ap (shift_first p) e ∙ ap (shift_cell p a) g

  unlink_final : (p : Pool A) (a : ℕ) → p.num_tasks ≡ pos 1 → Holds (unlink p a none) []
  unfolding unlink decr
  unlink_final p a h = record { chain = empty refl refl; count = ap decr h }

  unlink_before :
      (p : Pool A) (a b z : ℕ) {y : A} {ys : List A}
      → p.last_task ≡ some z
      → p.num_tasks ≡ pos (suc (suc (length ys)))
      → Segment p.store (suc a) b z y ys
      → Holds (unlink p a (some b)) (y ∷ ys)
  unfolding unlink decr
  unlink_before p a b z {ys = ys} e h r = record {
    chain =
        between b z refl e (Segment-weaken ys (omega arith) (Segment-set ys none (omega arith) r));
    count = ap decr h;
  }

  unlink_idle :
      (p : Pool A) (a : ℕ) (next : Pointer)
      → (unlink p a next).num_idle_threads ≡ p.num_idle_threads
  unfolding unlink
  unlink_idle p a none = refl
  unlink_idle p a (some n) = refl

  -- A shift takes the first task, and the pool holds the others.
  shift-cons :
      (p : Pool A) {x : A} {xs : List A}
      → Holds p (x ∷ xs)
      → (q : Pool A) × (shift p ≡ (some x, q))
        × Holds q xs
        × (q.num_idle_threads ≡ p.num_idle_threads)
  shift-cons p {xs = []} h = elim h.chain [
    | between a z e f (final l i g) ↦
        (unlink p a none, shift-some p a _ e g, unlink_final p a h.count, unlink_idle p a none)
  ]
  shift-cons p {xs = y ∷ ys} h = elim h.chain [
    | between a z e f (before b l g r) ↦ (
      unlink p a (some b),
      shift-some p a _ e g,
      unlink_before p a b z f h.count r,
      unlink_idle p a (some b),
    )
  ]

  start_thread-Holds :
      (p : Pool A) (created : Bool) {xs : List A}
      → Holds p xs
      → Holds (start_thread p created).pool xs
  unfolding start_thread
  start_thread-Holds p created h = elim (Bool-cases (less (pos 0) p.num_idle_threads)) [
    | inl e ↦ rw (start_thread, e) h
    | inr e ↦ elim (Bool-cases (not (threads_depleted p) && created)) [
      | inl f ↦ rw (start_thread, e, f) (record { chain = h.chain; count = h.count })
      | inr f ↦ rw (start_thread, e, f) h
    ]
  ]

  -- After a push to a pool whose queue holds some tasks, the queue holds the new one behind them,
  -- and counts it, whatever the push returns; but it is as before if the pool is dead, or has
  -- neither threads nor room left, or there is no memory.
  pub push-Holds :
      (p : Pool A) (arg : A) (memory created : Bool) {xs : List A}
      → Holds p xs
      → Holds (push p arg memory created).pool (
          if p.dead || (threads_depleted p && queue_full p) || not memory
          then xs
          else xs ++ arg ∷ [])
  unfolding push
  push-Holds p arg memory created h =
      elim (Bool-cases (p.dead || (threads_depleted p && queue_full p) || not memory)) [
        | inl e ↦ rw (push, e) h
        | inr e ↦ rw (push, e) (start_thread-Holds (enqueue p arg) created (enqueue-Holds p arg h))
      ]

  -- A worker that comes to a queue with tasks runs the first one, dead though the pool may be, and
  -- counts one idle thread less.
  pub worker-cons :
      (p : Pool A) {x : A} {xs : List A}
      → Holds p (x ∷ xs)
      → (q : Pool A) × (worker p ≡ (run x, q))
        × Holds q xs
        × (q.num_idle_threads ≡ decr p.num_idle_threads)
  unfolding worker worker_turn
  worker-cons p h =
      let (q, e, hq, i) = shift-cons p h in
      (
        record q { num_idle_threads = decr q.num_idle_threads },
        ap worker_turn e,
        record { chain = hq.chain; count = hq.count },
        ap decr i,
      )

  -- A worker that comes to an empty queue ends if the pool is dead, and waits if not.
  pub worker-nil : (p : Pool A) → Holds p [] → worker p ≡ worker_idle p
  unfolding worker
  worker-nil p h = elim h.chain [ empty e f ↦ ap worker_turn (shift-none p e) ]
