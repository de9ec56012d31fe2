-- ===== src/ThreadPool/Threads.antt =====
-- The number of threads of the pool (src/thread_pool.c).
use valiant.Prelude.{
  ◌-◌, get_elem?, ℕ, zero, suc, ◌+◌, ◌≤◌, ◌≡◌, refl, ap, subst, ◌∙◌, Bool, true, false, not, ◌&&◌,
  ◌||◌, Option, none, some, arith, Bool-cases, inl, inr,
}
use valiant.Prelude.Int.{ℤ, pos, negsuc, incr, decr, less, nonzero}
use valiant.ThreadPool.{
  shift_first, shift_cell, Cell, enqueue_first, Pointer, Pool, enqueue, queue_full,
  threads_depleted, start_thread, push, shift, worker, worker_idle, worker_turn, wake,
  decr_if_positive, unlink,
}

not_idle : (z : ℤ) → less (pos 0) z ≡ false → less z (pos 1) ≡ true
unfolding less
not_idle (pos n) h = ground arith
not_idle (negsuc n) h = refl

not_more :
    (i : Bool) (m n : ℕ)
    → i ≡ true
    → (i && nonzero (pos (suc m)) && less (pos (suc m)) (pos n)) ≡ false
    → n ≤ suc m
unfolding less nonzero
not_more true m n e h = ground arith
not_more false m n e h = absurd (ground arith)

decr_if_positive_pos : (n : ℕ) → decr_if_positive (pos n) ≡ pos (n - 1)
unfolding decr_if_positive less decr
decr_if_positive_pos zero = refl
decr_if_positive_pos (suc n) = ground arith

not-true : (b c : Bool) → (not b && c) ≡ true → b ≡ false
not-true true c h = absurd (ground arith)
not-true false c h = refl

module _ {A : Type 0} where
  -- No more than one thread above the limit, which is not 0 (no limit).
  pub record IsBounded (m : ℕ) (p : Pool A) : Type 0 where
    pub limit : p.max_threads ≡ pos (suc m)
    pub threads : ℕ
    pub counted : p.num_threads ≡ pos threads
    pub bounded : threads ≤ m + 2

  room :
      (m : ℕ) (p : Pool A) (b : IsBounded m p)
      → less (pos 0) p.num_idle_threads ≡ false
      → threads_depleted p ≡ false
      → b.threads ≤ suc m
  unfolding threads_depleted
  room m p b e f =
      not_more (less p.num_idle_threads (pos 1)) m b.threads (not_idle p.num_idle_threads e) (
        subst
          (λ t.
            (less p.num_idle_threads (pos 1) && nonzero (pos (suc m)) && less (pos (suc m)) t)
            ≡ false)
          b.counted
          (subst
            (λ t. (less p.num_idle_threads (pos 1) && nonzero t && less t p.num_threads) ≡ false)
            b.limit f))

  start_thread-IsBounded :
      (m : ℕ) (p : Pool A) (created : Bool)
      → IsBounded m p
      → IsBounded m (start_thread p created).pool
  unfolding start_thread incr
  start_thread-IsBounded m p created b = elim (Bool-cases (less (pos 0) p.num_idle_threads)) [
    | inl e ↦ rw (start_thread, e) b
    | inr e ↦ elim (Bool-cases (not (threads_depleted p) && created)) [
      | inl f ↦
          rw (start_thread, e, f)
            (let le = room m p b e (not-true (threads_depleted p) created f) in
              record {
                limit = b.limit;
                threads = suc b.threads;
                counted = ap incr b.counted;
                bounded = omega arith;
              })
      | inr f ↦ rw (start_thread, e, f) b
    ]
  ]

  enqueue_first-IsBounded :
      (m : ℕ) (p : Pool A) (arg : A) (first : Pointer)
      → IsBounded m p
      → IsBounded m (enqueue_first p arg first)
  unfolding enqueue_first
  enqueue_first-IsBounded m p arg none b = record {
    limit = b.limit;
    threads = b.threads;
    counted = b.counted;
    bounded = b.bounded;
  }
  enqueue_first-IsBounded m p arg (some a) b = record {
    limit = b.limit;
    threads = b.threads;
    counted = b.counted;
    bounded = b.bounded;
  }

  -- A push keeps the number of threads at no more than one above the limit, where there is a
  -- limit.
  pub push-IsBounded :
      (m : ℕ) (p : Pool A) (arg : A) (memory created : Bool)
      → IsBounded m p
      → IsBounded m (push p arg memory created).pool
  unfolding push enqueue
  push-IsBounded m p arg memory created b =
      elim (Bool-cases (p.dead || (threads_depleted p && queue_full p) || not memory)) [
        | inl e ↦ rw (push, e) b
        | inr e ↦
            rw (push, e)
              (start_thread-IsBounded m (enqueue p arg) created
                (enqueue_first-IsBounded m p arg p.first_task b))
      ]

  unlink-IsBounded :
      (m : ℕ) (p : Pool A) (a : ℕ) (next : Pointer) → IsBounded m p → IsBounded m (unlink p a next)
  unfolding unlink
  unlink-IsBounded m p a none b = record {
    limit = b.limit;
    threads = b.threads;
    counted = b.counted;
    bounded = b.bounded;
  }
  unlink-IsBounded m p a (some n) b = record {
    limit = b.limit;
    threads = b.threads;
    counted = b.counted;
    bounded = b.bounded;
  }

  worker_turn-IsBounded :
      (m : ℕ) (o : Option A) (p : Pool A) → IsBounded m p → IsBounded m (worker_turn (o, p)).1
  unfolding worker_turn worker_idle
  worker_turn-IsBounded m (some a) p b = record {
    limit = b.limit;
    threads = b.threads;
    counted = b.counted;
    bounded = b.bounded;
  }
  worker_turn-IsBounded m none p b = elim (Bool-cases p.dead) [
    | inl e ↦
        rw (worker_idle, e)
          (record {
            limit = b.limit;
            threads = b.threads - 1;
            counted = ap decr_if_positive b.counted ∙ decr_if_positive_pos b.threads;
            bounded = ground (arith, b.bounded);
          })
    | inr e ↦
        rw (worker_idle, e)
          (record {
            limit = b.limit;
            threads = b.threads;
            counted = b.counted;
            bounded = b.bounded;
          })
  ]

  shift_cell-IsBounded :
      (m : ℕ) (p : Pool A) (a : ℕ) (c : Option (Option (Cell A)))
      → IsBounded m p
      → IsBounded m (shift_cell p a c).1
  unfolding shift_cell
  shift_cell-IsBounded m p a (some (some c)) b = unlink-IsBounded m p a c.next b
  shift_cell-IsBounded m p a (some none) b = b
  shift_cell-IsBounded m p a none b = b

  shift_first-IsBounded :
      (m : ℕ) (p : Pool A) (first : Pointer) → IsBounded m p → IsBounded m (shift_first p first).1
  unfolding shift_first
  shift_first-IsBounded m p none b = b
  shift_first-IsBounded m p (some a) b = shift_cell-IsBounded m p a (get_elem? p.store a) b

  -- A turn of a worker, and the end of its wait, keep the number of threads at no more than one
  -- above the limit, where there is a limit.
  pub worker-IsBounded :
      (m : ℕ) (p : Pool A) (timeout : Bool)
      → IsBounded m p
      → IsBounded m (worker p).1 × IsBounded m (wake p timeout)
  unfolding worker shift wake
  worker-IsBounded m p true b = (
    worker_turn-IsBounded m (shift p).0 (shift p).1 (shift_first-IsBounded m p p.first_task b),
    record {
      limit = b.limit;
      threads = b.threads - 1;
      counted = ap decr_if_positive b.counted ∙ decr_if_positive_pos b.threads;
      bounded = ground (arith, b.bounded);
    },
  )
  worker-IsBounded m p false b = (
    worker_turn-IsBounded m (shift p).0 (shift p).1 (shift_first-IsBounded m p p.first_task b),
    b,
  )
