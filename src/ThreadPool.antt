-- ===== src/ThreadPool.antt =====
-- The pool of threads and its queue of tasks (src/thread_pool.c). The queue is a linked list with a
-- pointer to its last cell, in a store of cells (src/slist.c). What a thread does while it holds the
-- lock is one step.
pub mod Chain
pub mod Queue
pub mod Threads
pub mod Refusal
mod Tests
use valiant.Prelude.Int.{ℤ, pos, incr, decr, less, nonzero, to_int}
use valiant.Prelude.{
  ℕ, zero, suc, ◌+◌, ◌-◌, ◌%◌, ◌^◌, Bool, true, false, not, ◌&&◌, ◌||◌, Option, none, some, List,
  [], ◌∷◌, ◌++◌, ◌==◌, ltb, if◌then◌else◌, length, get_elem?, set,
}

-- A pointer to a cell, or NULL.
abbrev pub Pointer : Type 0
Pointer = Option ℕ

-- `vt_slist_t`
pub record Cell (A : Type 0) : Type 0 where
  pub item : A  -- `data`
  pub next : Pointer

-- The cells that were ever allocated; `none` is one that was freed.
abbrev pub Store : Type 0 → Type 0
Store A = List (Option (Cell A))

-- `struct _vt_thread_pool`
pub record Pool (A : Type 0) : Type 0 where
  pub dead : Bool
  pub max_threads : ℤ
  pub num_threads : ℤ
  pub max_idle_threads : ℤ
  pub num_idle_threads : ℤ
  pub max_tasks : ℤ
  pub num_tasks : ℤ
  pub store : Store A
  pub first_task : Pointer
  pub last_task : Pointer

-- What a push does: the pool, whether 0 is returned, whether a thread was made, and whether the
-- condition is signalled.
pub record Pushed (A : Type 0) : Type 0 where
  pub pool : Pool A
  pub accepted : Bool
  pub started : Bool
  pub signalled : Bool

-- What a worker does next: it runs a task, ends, or waits, with or without a limit on the time.
pub data Turn (A : Type 0) : Type 0 where
  run : A → Turn A
  stop : Turn A
  wait : (timed : Bool) → Turn A

-- What `vt_thread_pool_destroy` does in one turn of its loop.
pub data Ending : Type 0 where
  broadcast await finished : Ending

-- `if (n > 0) n--`
unfoldable pub decr_if_positive : ℤ → ℤ
decr_if_positive n = if less (pos 0) n then decr n else n

module _ {A : Type 0} where
  -- `task->next = next`
  unfoldable pub link : Store A → ℕ → ℕ → Store A
  link s a next = elim (get_elem? s a) [
    | some (some c) ↦ set s a (some (record c { next = some next }))
    | _ ↦ s
  ]

  -- `vt_thread_pool_create`, where nothing fails
  unfoldable pub create : ℕ → Pool A
  create threads = record {
    dead = false;
    max_threads = to_int threads;
    num_threads = pos 0;
    max_idle_threads = pos 15;
    num_idle_threads = pos 0;
    max_tasks = pos 200;
    num_tasks = pos 0;
    store = [];
    first_task = none;
    last_task = none;
  }

  -- QUEUE_FULL
  unfoldable pub queue_full : Pool A → Bool
  queue_full p = nonzero p.max_tasks && less p.max_tasks p.num_tasks

  -- THREADS_DEPLETED
  unfoldable pub threads_depleted : Pool A → Bool
  threads_depleted p =
      less p.num_idle_threads (pos 1) && nonzero p.max_threads && less p.max_threads p.num_threads

  enqueue_first : Pool A → A → Pointer → Pool A
  unfolding link
  enqueue_first p arg none = record p {
    store = p.store ++ some (record { item = arg; next = none }) ∷ [];
    first_task = some (length p.store);
    last_task = some (length p.store);
    num_tasks = incr p.num_tasks;
  }
  enqueue_first p arg (some first) =
      let s = p.store ++ some (record { item = arg; next = none }) ∷ [] in
      record p {
        store = elim p.last_task [ none ↦ s | some last ↦ link s last (length p.store) ];
        last_task = some (length p.store);
        num_tasks = incr p.num_tasks;
      }

  -- the cell that is put behind the last one
  unfoldable pub enqueue : Pool A → A → Pool A
  unfolding enqueue_first
  enqueue p arg = enqueue_first p arg p.first_task

  -- what is left of a push once the task is in the queue; `created` tells that `pthread_create`
  -- makes a thread, and it fails with EAGAIN where not
  unfoldable pub start_thread : Pool A → Bool → Pushed A
  start_thread p created =
      if less (pos 0) p.num_idle_threads
      then record { pool = p; accepted = true; started = false; signalled = true }
      else if not (threads_depleted p) && created
      then record {
        pool = record p {
          num_threads = incr p.num_threads;
          num_idle_threads = incr p.num_idle_threads;
        };
        accepted = true;
        started = true;
        signalled = true;
      }
      else record { pool = p; accepted = false; started = false; signalled = false }

  -- `vt_thread_pool_push`; `memory` tells that `vt_slist_alloc` returns a cell
  unfoldable pub push : Pool A → A → (memory created : Bool) → Pushed A
  push p arg memory created =
      if p.dead || (threads_depleted p && queue_full p) || not memory
      then record { pool = p; accepted = false; started = false; signalled = false }
      else start_thread (enqueue p arg) created

  -- `vt_thread_pool_shift` once there is a first task: its cell leaves the queue and is freed
  unfoldable pub unlink : Pool A → ℕ → Pointer → Pool A
  unlink p task (some next) = record p {
    store = set p.store task none;
    first_task = some next;
    num_tasks = decr p.num_tasks;
  }
  unlink p task none = record p {
    store = set p.store task none;
    first_task = none;
    last_task = none;
    num_tasks = decr p.num_tasks;
  }

  shift_cell : Pool A → ℕ → Option (Option (Cell A)) → Option A × Pool A
  shift_cell p task (some (some c)) = (some c.item, unlink p task c.next)
  shift_cell p task _ = (none, p)

  shift_first : Pool A → Pointer → Option A × Pool A
  unfolding shift_cell
  shift_first p none = (none, p)
  shift_first p (some task) = shift_cell p task (get_elem? p.store task)

  -- `vt_thread_pool_shift`
  unfoldable pub shift : Pool A → Option A × Pool A
  unfolding shift_first
  shift p = shift_first p p.first_task

  -- `thread_pool_worker` without a task: a dead pool makes it end, else it waits
  unfoldable pub worker_idle : Pool A → Turn A × Pool A
  worker_idle p =
      if p.dead
      then (
        stop,
        record p {
          num_threads = decr_if_positive p.num_threads;
          num_idle_threads = decr_if_positive p.num_idle_threads;
        },
      )
      else (
        wait
            (nonzero p.max_idle_threads && not (less (incr p.num_idle_threads) p.max_idle_threads)),
        record p { num_idle_threads = incr p.num_idle_threads },
      )

  worker_turn : Option A × Pool A → Turn A × Pool A
  worker_turn (some arg, p) = (run arg, record p { num_idle_threads = decr p.num_idle_threads })
  worker_turn (none, p) = worker_idle p

  -- one turn of `thread_pool_worker`, up to where it gives the lock away
  unfoldable pub worker : Pool A → Turn A × Pool A
  unfolding worker_turn
  worker p = worker_turn (shift p)

  -- `thread_pool_worker` when its wait is over: on a timeout the thread ends
  unfoldable pub wake : Pool A → (timeout : Bool) → Pool A
  wake p timeout = if timeout then record p { num_threads = decr_if_positive p.num_threads } else p

  -- one turn of the loop of `vt_thread_pool_destroy`
  unfoldable pub destroy : Pool A → Ending × Pool A
  destroy p =
      let ending : Ending =
        if less (pos 0) p.num_idle_threads
        then broadcast
        else if less (pos 0) p.num_threads || less (pos 0) p.num_tasks
        then await
        else finished in
      (ending, record p { dead = true })

  unfoldable pub set_max_threads : Pool A → ℕ → Pool A
  set_max_threads p num = record p { max_threads = to_int num }

  unfoldable pub set_max_idle_threads : Pool A → ℕ → Pool A
  set_max_idle_threads p num = record p { max_idle_threads = to_int num }

  unfoldable pub set_max_queued : Pool A → ℕ → Pool A
  set_max_queued p num = record p { max_tasks = to_int num }
