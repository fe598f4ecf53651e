-- ===== src/ThreadPool.antt =====
-- Worker threads and their tasks: src/mod_spdy/common/thread_pool.cc and .h. A WorkerThread is its
-- address, with what its thread does; a task's function and an executor are their addresses. Each
-- operation is what happens under the pool's lock. Whether the system can create a thread is a
-- parameter. `started` and `cancelled` record the calls of CallRun and CallCancel, the newest first.
pub mod Main
pub mod Counts
pub mod Steps
pub mod Valid
pub mod Stopping
pub mod Once
pub mod Served
use mod_spdy.Common.{
  ℕ, zero, suc, ◌+◌, ◌-◌, ltb, leb, length, ◌==◌, Bool, true, false, not, ◌&&◌, ◌||◌, List, [], ◌∷◌,
  ◌++◌, Option, none, some, if◌then◌else◌,
}

pub record Task : Type 0 where
  pub function : ℕ
  pub owner : ℕ

-- What the thread of a WorkerThread does: it waits in ThreadMain, or runs the task it has taken.
pub data Activity : Type 0 where
  waits : Activity
  runs : Task → Activity

pub record Worker : Type 0 where
  pub address : ℕ
  pub activity : Activity

pub record ThreadPool : Type 0 where
  pub min_threads : ℕ
  pub max_threads : ℕ
  pub workers : List Worker
  pub zombies : List ℕ
  pub num_busy_workers : ℕ
  pub shutting_down : Bool
  pub task_queue : List (ℕ × Task)
  pub active_task_counts : ℕ → Option ℕ
  pub stopped : ℕ → Bool
  pub started : List Task
  pub cancelled : List Task

-- The constructor of the pool.
unfoldable pub create : (min_threads max_threads : ℕ) → ThreadPool
create min_threads max_threads = record {
  min_threads = min_threads;
  max_threads = max_threads;
  workers = [];
  zombies = [];
  num_busy_workers = 0;
  shutting_down = false;
  task_queue = [];
  active_task_counts = λ owner. none;
  stopped = λ executor. false;
  started = [];
  cancelled = [];
}

-- The loop of Start: the address of each new worker, none if its thread cannot be created.
unfoldable pub start_workers : (n : ℕ) → List (Option ℕ) → ThreadPool → Bool × ThreadPool
start_workers zero results pool = (true, pool)
start_workers (suc n) [] pool = (false, pool)
start_workers (suc n) (none ∷ results) pool = (false, pool)
start_workers (suc n) (some address ∷ results) pool =
    start_workers n results
      (record pool { workers = record { address = address; activity = waits } ∷ pool.workers })

unfoldable pub start : List (Option ℕ) → ThreadPool → Bool × ThreadPool
unfolding start_workers
start results pool = start_workers pool.min_threads results pool

-- `insert` of the std::multimap: after the entries with the same key.
unfoldable pub enqueue : ℕ → Task → List (ℕ × Task) → List (ℕ × Task)
enqueue priority task [] = (priority, task) ∷ []
enqueue priority task ((p, t) ∷ queue) =
    if ltb priority p
    then (priority, task) ∷ (p, t) ∷ queue
    else (p, t) ∷ enqueue priority task queue

-- StartNewWorkerIfNeeded, with the result of creating a thread.
unfoldable pub start_new_worker_if_needed : Option ℕ → ThreadPool → ThreadPool
start_new_worker_if_needed none pool = pool
start_new_worker_if_needed (some address) pool =
    if leb pool.max_threads (length pool.workers)
      || leb (length pool.task_queue) (length pool.workers - pool.num_busy_workers)
    then pool
    else record pool { workers = record { address = address; activity = waits } ∷ pool.workers }

-- The start of AddTask, after which the lock is free while the zombies are joined.
unfoldable pub reap_zombies : ThreadPool → ThreadPool
reap_zombies pool = record pool { zombies = [] }

-- The rest of AddTask.
unfoldable pub add_task : ℕ → Task → Option ℕ → ThreadPool → ThreadPool
unfolding enqueue start_new_worker_if_needed
add_task priority task thread pool =
    if pool.stopped task.owner
    then record pool { cancelled = task ∷ pool.cancelled }
    else start_new_worker_if_needed thread
        (record pool { task_queue = enqueue priority task pool.task_queue })

-- The loop of Stop: the tasks of other executors, and those to cancel.
unfoldable pub tasks_of_others : ℕ → List (ℕ × Task) → List (ℕ × Task)
tasks_of_others executor [] = []
tasks_of_others executor ((p, t) ∷ queue) =
    if t.owner == executor
    then tasks_of_others executor queue
    else (p, t) ∷ tasks_of_others executor queue

unfoldable pub tasks_to_cancel : ℕ → List (ℕ × Task) → List Task
tasks_to_cancel executor [] = []
tasks_to_cancel executor ((p, t) ∷ queue) =
    if t.owner == executor
    then t ∷ tasks_to_cancel executor queue
    else tasks_to_cancel executor queue

-- Stop, up to the wait for the active tasks.
unfoldable pub stop : ℕ → ThreadPool → ThreadPool
unfolding tasks_of_others tasks_to_cancel
stop executor pool = if pool.stopped executor then pool else record pool {
  stopped = λ e. e == executor || pool.stopped e;
  task_queue = tasks_of_others executor pool.task_queue;
  cancelled = tasks_to_cancel executor pool.task_queue ++ pool.cancelled;
}

-- The condition under which the wait at the end of Stop is over.
unfoldable pub may_return : ℕ → ThreadPool → Bool
may_return executor pool = elim (pool.active_task_counts executor) as (λ o. Bool) [
  | none ↦ true
  | some n ↦ false
]

unfoldable pub activity_of : ℕ → List Worker → Option Activity
activity_of address [] = none
activity_of address (w ∷ workers) =
    if w.address == address then some w.activity else activity_of address workers

-- A worker's thread goes over to something else.
unfoldable pub set_activity : ℕ → Activity → List Worker → List Worker
set_activity address a [] = []
set_activity address a (w ∷ workers) =
    if w.address == address
    then record w { activity = a } ∷ workers
    else w ∷ set_activity address a workers

unfoldable pub erase_worker : ℕ → List Worker → List Worker
erase_worker address [] = []
erase_worker address (w ∷ workers) =
    if w.address == address then workers else w ∷ erase_worker address workers

-- TryZombifyIdleThread
unfoldable pub try_zombify_idle_thread : ℕ → ThreadPool → Bool × ThreadPool
unfolding erase_worker
try_zombify_idle_thread address pool =
    if leb (length pool.workers) pool.min_threads then (false, pool) else (
      true,
      record pool { workers = erase_worker address pool.workers; zombies = address ∷ pool.zombies },
    )

abbrev pub count_or_zero : Option ℕ → ℕ
count_or_zero none = 0
count_or_zero (some n) = n

-- GetNextTask on a queue that starts with the task.
unfoldable pub take_task : ℕ → Task → List (ℕ × Task) → ThreadPool → ThreadPool
unfolding set_activity
take_task address task rest pool = record pool {
  task_queue = rest;
  active_task_counts = λ e.
      if e == task.owner
      then some (suc (count_or_zero (pool.active_task_counts task.owner)))
      else pool.active_task_counts e;
  num_busy_workers = suc pool.num_busy_workers;
  workers = set_activity address (runs task) pool.workers;
  started = task ∷ pool.started;
}

-- The count that is left, none where the entry is erased.
abbrev pub one_less : Option ℕ → Option ℕ
one_less none = none
one_less (some n) = if n - 1 == 0 then none else some (n - 1)

-- OnTaskComplete
unfoldable pub on_task_complete : ℕ → Task → ThreadPool → ThreadPool
unfolding set_activity
on_task_complete address task pool = record pool {
  num_busy_workers = pool.num_busy_workers - 1;
  active_task_counts = λ e.
      if e == task.owner
      then one_less (pool.active_task_counts task.owner)
      else pool.active_task_counts e;
  workers = set_activity address waits pool.workers;
}

unfoldable pub addresses : List Worker → List ℕ
addresses [] = []
addresses (w ∷ workers) = w.address ∷ addresses workers

-- The destructor of the pool: the threads that it joins once the lock is free.
unfoldable pub shut_down : ThreadPool → List ℕ × ThreadPool
unfolding addresses
shut_down pool = (
  addresses pool.workers ++ pool.zombies,
  record pool { shutting_down = true; workers = []; zombies = [] },
)
