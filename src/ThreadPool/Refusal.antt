-- ===== src/ThreadPool/Refusal.antt =====
-- Pushes that return -1, turns of workers in a row, and the count of idle threads
-- (src/thread_pool.c).
use valiant.Prelude.{
  ℕ, zero, suc, ◌≡◌, refl, sym, ap, subst, ◌∙◌, Bool, true, false, not, ◌&&◌, ◌||◌, none, some,
  List, [], ◌∷◌, ◌++◌, arith, if◌then◌else◌, length, Bool-cases, inl, inr,
}
use valiant.Prelude.Int.{ℤ, pos, negsuc, incr, decr, less}
use valiant.ThreadPool.{
  decr_if_positive, Pool, Turn, run, Pointer, enqueue, enqueue_first, queue_full, threads_depleted,
  start_thread, push, worker, worker_idle,
}
use valiant.ThreadPool.Queue.{Holds, push-Holds, worker-cons}

-- `z - n`
unfoldable pub lowered : ℕ → ℤ → ℤ
lowered zero z = z
lowered (suc n) z = lowered n (decr z)

busy : (z : ℤ) (b c : Bool) → (less z (pos 1) && b && c) ≡ true → less (pos 0) z ≡ false
unfolding less
busy (pos n) b c h = ground arith
busy (negsuc n) b c h = refl

guard : (d t q : Bool) → d ≡ false → t ≡ true → (d || (t && q) || not true) ≡ q
guard d t q e f = ground arith

lowered_neg : (n m : ℕ) → (k : ℕ) × (lowered n (negsuc m) ≡ negsuc k)
unfolding lowered decr
lowered_neg zero m = (m, refl)
lowered_neg (suc n) m = lowered_neg n (suc m)

uncounted :
    (k : ℕ)
    → (less (incr (negsuc k)) (pos 1) ≡ true) × (less (decr_if_positive (negsuc k)) (pos 1) ≡ true)
unfolding incr less decr_if_positive
uncounted zero = (ground arith, refl)
uncounted (suc k) = (refl, refl)

module _ {A : Type 0} where
  depleted_first :
      (p : Pool A) (arg : A) (first : Pointer)
      → (threads_depleted (enqueue_first p arg first) ≡ threads_depleted p)
        × ((enqueue_first p arg first).num_idle_threads ≡ p.num_idle_threads)
  unfolding enqueue_first threads_depleted
  depleted_first p arg none = (refl, refl)
  depleted_first p arg (some a) = (refl, refl)

  depleted_idle : (p : Pool A) → threads_depleted p ≡ true → less (pos 0) p.num_idle_threads ≡ false
  unfolding threads_depleted less
  depleted_idle p h = busy p.num_idle_threads _ _ h

  start_thread-depleted :
      (p : Pool A) (created : Bool)
      → threads_depleted p ≡ true
      → (start_thread p created).accepted ≡ false
  unfolding start_thread
  start_thread-depleted p created h = rw (depleted_idle p h, h) refl

  cons_run : Turn A → List A × Pool A → List A × Pool A
  cons_run (run a) (ran, p) = (a ∷ ran, p)
  cons_run _ (ran, p) = (ran, p)

  -- The tasks that a worker runs in `n` turns, and the pool after them.
  unfoldable pub turns : ℕ → Pool A → List A × Pool A
  unfolding cons_run
  turns zero p = ([], p)
  turns (suc n) p = cons_run (worker p).0 (turns n (worker p).1)

  -- For a pool whose queue holds some tasks, as many turns of workers run these tasks from the
  -- first to the last, leave the queue empty, and take as many from the count of idle threads,
  -- whether or not the pool is dead.
  pub turns_lem :
      (p : Pool A) (xs : List A)
      → Holds p xs
      → ((turns (length xs) p).0 ≡ xs)
        × Holds (turns (length xs) p).1 []
        × ((turns (length xs) p).1.num_idle_threads ≡ lowered (length xs) p.num_idle_threads)
  unfolding turns lowered cons_run
  turns_lem p [] h = (refl, h, refl)
  turns_lem p (x ∷ xs) h =
      let (q, e, hq, i) = worker-cons p h in
      let (r, hr, k) = turns_lem q xs hq in
      subst
        (λ w.
          ((cons_run w.0 (turns (length xs) w.1)).0 ≡ x ∷ xs)
          × Holds (cons_run w.0 (turns (length xs) w.1)).1 []
          × ((cons_run w.0 (turns (length xs) w.1)).1.num_idle_threads
              ≡ lowered (length xs) (decr p.num_idle_threads)))
        (sym e) (ap (λ l. x ∷ l) r, hr, k ∙ ap (lowered (length xs)) i)

  -- A push to a pool that has no idle threads and more threads than its limit returns -1, whether it
  -- has room for the task or not; where it has, the task stays in the queue nevertheless, and a
  -- worker will run it. (The pool is alive and memory is at hand.)
  pub push-depleted :
      (p : Pool A) (arg : A) (created : Bool) {xs : List A}
      → Holds p xs
      → p.dead ≡ false
      → threads_depleted p ≡ true
      → ((push p arg true created).accepted ≡ false)
        × Holds (push p arg true created).pool (if queue_full p then xs else xs ++ arg ∷ [])
        × ((turns
              (length (if queue_full p then xs else xs ++ arg ∷ []))
              (push p arg true created).pool).0
            ≡ (if queue_full p then xs else xs ++ arg ∷ []))
  unfolding push enqueue
  push-depleted p arg created {xs = xs} h d t =
      let first = depleted_first p arg p.first_task in
      let left : Holds (push p arg true created).pool
          (if queue_full p then xs else xs ++ arg ∷ []) =
        subst (λ b. Holds (push p arg true created).pool (if b then xs else xs ++ arg ∷ []))
          (guard p.dead (threads_depleted p) (queue_full p) d t)
          (push-Holds p arg true created h) in
      (
        elim (Bool-cases (p.dead || (threads_depleted p && queue_full p) || not true)) [
          | inl e ↦ rw (push, e) refl
          | inr e ↦ rw (push, e) (start_thread-depleted (enqueue p arg) created (first.0 ∙ t))
        ],
        left,
        (turns_lem (push p arg true created).pool _ left).0,
      )

  -- A thread that was counted idle once, as `vt_thread_pool_push` does when it makes it, and then
  -- runs two or more queued tasks in a row, is not counted when it goes on to wait (or ends): the
  -- pool then counts no idle thread.
  turns-uncounted :
      (p : Pool A) (x y : A) (xs : List A)
      → Holds p (x ∷ y ∷ xs)
      → p.num_idle_threads ≡ pos 1
      → less (worker_idle (turns (length (x ∷ y ∷ xs)) p).1).1.num_idle_threads (pos 1) ≡ true
  unfolding worker_idle lowered decr
  turns-uncounted p x y xs h i =
      let q = (turns (length (x ∷ y ∷ xs)) p).1 in
      let (k, e) = lowered_neg (length xs) 0 in
      let z : q.num_idle_threads ≡ negsuc k =
        (turns_lem p (x ∷ y ∷ xs) h).2 ∙ ap (lowered (length (x ∷ y ∷ xs))) i ∙ e in
      elim (Bool-cases q.dead) [
        | inl d ↦
            rw (worker_idle, d)
              (subst (λ c. less (decr_if_positive c) (pos 1) ≡ true) (sym z) (uncounted k).1)
        | inr d ↦
            rw (worker_idle, d) (subst (λ c. less (incr c) (pos 1) ≡ true) (sym z) (uncounted k).0)
      ]
