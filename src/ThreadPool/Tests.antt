-- ===== src/ThreadPool/Tests.antt =====
-- The results about the pool at two queued tasks.
use valiant.Prelude.{
  length, ℕ, ◌≡◌, refl, true, false, none, some, [], ◌∷◌, arith, if◌then◌else◌, not, ◌&&◌, ◌||◌,
  ◌++◌,
}
use valiant.Prelude.Int.{ℤ, pos, less, nonzero}
use valiant.ThreadPool.{Pool, push, queue_full, threads_depleted}
use valiant.ThreadPool.Chain.{final, before, between}
use valiant.ThreadPool.Queue.{Holds, push-Holds}
use valiant.ThreadPool.Threads.{IsBounded, push-IsBounded}
use valiant.ThreadPool.Refusal.{turns, turns_lem, lowered, push-depleted}

-- A limit of one thread, two threads, and two tasks in the queue.
abbrev with_idle : ℤ → Pool ℕ
with_idle n = record {
  dead = false;
  max_threads = pos 1;
  num_threads = pos 2;
  max_idle_threads = pos 15;
  num_idle_threads = n;
  max_tasks = pos 200;
  num_tasks = pos 2;
  store = some (record { item = 7; next = some 1 }) ∷ some (record { item = 8; next = none }) ∷ [];
  first_task = some 0;
  last_task = some 1;
}

with_idle-Holds : (n : ℤ) → Holds (with_idle n) (7 ∷ 8 ∷ [])
with_idle-Holds n = record {
  chain = between 0 1 refl refl (before 1 (omega arith) refl (final (omega arith) refl refl));
  count = refl;
}

with_idle-IsBounded : (n : ℤ) → IsBounded 0 (with_idle n)
with_idle-IsBounded n = record { limit = refl; threads = 2; counted = refl; bounded = omega arith }

abbrev busy : Pool ℕ
busy = with_idle (pos 0)

busy-depleted : threads_depleted busy ≡ true
unfolding threads_depleted less nonzero
busy-depleted = refl

push-Holds_example : Holds (push busy 9 true true).pool (
    if busy.dead || (threads_depleted busy && queue_full busy) || not true
    then 7 ∷ 8 ∷ []
    else (7 ∷ 8 ∷ []) ++ 9 ∷ [])
push-Holds_example = push-Holds busy 9 true true (with_idle-Holds (pos 0))

turns_lem_example :
    ((turns 2 busy).0 ≡ 7 ∷ 8 ∷ [])
    × Holds (turns 2 busy).1 []
    × ((turns 2 busy).1.num_idle_threads ≡ lowered 2 (pos 0))
turns_lem_example = turns_lem busy (7 ∷ 8 ∷ []) (with_idle-Holds (pos 0))

push-depleted_example :
    ((push busy 9 true true).accepted ≡ false)
    × Holds
        (push busy 9 true true).pool
        (if queue_full busy then 7 ∷ 8 ∷ [] else (7 ∷ 8 ∷ []) ++ 9 ∷ [])
    × ((turns
          (length {A = ℕ} (if queue_full busy then 7 ∷ 8 ∷ [] else (7 ∷ 8 ∷ []) ++ 9 ∷ []))
          (push busy 9 true true).pool).0
        ≡ (if queue_full busy then 7 ∷ 8 ∷ [] else (7 ∷ 8 ∷ []) ++ 9 ∷ []))
push-depleted_example = push-depleted busy 9 true (with_idle-Holds (pos 0)) refl busy-depleted

push-IsBounded_example : IsBounded 0 (push busy 9 true true).pool
push-IsBounded_example = push-IsBounded 0 busy 9 true true (with_idle-IsBounded (pos 0))
