-- ===== src/ThreadPool/Main.antt =====
-- The threads of thread_pool.cc: the loop of ThreadMain, one turn under the lock at a time.
use mod_spdy.Common.{ℕ, ◌-◌, ltb, List, [], ◌∷◌, Option, none, some, ◌>>=◌, if◌then◌else◌}
use mod_spdy.ThreadPool.{
  Task, Activity, waits, runs, ThreadPool, reap_zombies, add_task, stop, activity_of,
  try_zombify_idle_thread, take_task, on_task_complete,
}

-- The time that is left after a TimedWait, by the clock before and after it; what the source lets fall
-- below 0 is 0 here, and is tested for being above 0 only.
unfoldable pub time_left : (time_remaining before after : ℕ) → ℕ
time_left time_remaining before after =
    if ltb before after then time_remaining - (after - before) else time_remaining

-- What a waiting thread does next.
pub data Turn : Type 0 where
  waits_on terminates asks_to_stop : Turn
  gets_task : (task : Task) → (rest : List (ℕ × Task)) → Turn

-- The tests of ThreadMain.
unfoldable pub turn : (time_remaining : ℕ) → ThreadPool → Turn
turn time_remaining pool =
    if pool.shutting_down then terminates else elim pool.task_queue as (λ q. Turn) [
      | [] ↦ if ltb 0 time_remaining then waits_on else asks_to_stop
      | (p, task) ∷ rest ↦ gets_task task rest
    ]

-- A turn of a thread that waits; TryZombifyIdleThread may be asked.
unfoldable pub act : ℕ → Turn → ThreadPool → ThreadPool
unfolding take_task try_zombify_idle_thread
act address waits_on pool = pool
act address terminates pool = pool
act address asks_to_stop pool = (try_zombify_idle_thread address pool).1
act address (gets_task task rest) pool = take_task address task rest pool

-- A waiting thread, which has waited so long that the given time remains, and a thread that comes back
-- from its task.
unfoldable pub thread_main :
    ℕ → (time_remaining : ℕ) → Option Activity → ThreadPool → Option ThreadPool
unfolding act turn on_task_complete
thread_main address time_remaining none pool = none
thread_main address time_remaining (some waits) pool =
    some (act address (turn time_remaining pool) pool)
thread_main address time_remaining (some (runs task)) pool =
    some (on_task_complete address task pool)

-- The steps of the threads and of the callers.
pub data Event : Type 0 where
  reaps : Event
  adds : (priority : ℕ) → Task → (thread : Option ℕ) → Event
  stops : (executor : ℕ) → Event
  goes_on : (address time_remaining : ℕ) → Event

-- A step, none for a thread that is not a worker.
unfoldable pub step : Event → ThreadPool → Option ThreadPool
unfolding thread_main add_task stop reap_zombies activity_of
step reaps pool = some (reap_zombies pool)
step (adds priority task thread) pool = some (add_task priority task thread pool)
step (stops executor) pool = some (stop executor pool)
step (goes_on address time_remaining) pool =
    thread_main address time_remaining (activity_of address pool.workers) pool

-- The steps, the newest first.
unfoldable pub run : List Event → ThreadPool → Option ThreadPool
unfolding step
run [] pool = some pool
run (event ∷ older) pool = run older pool >>= step event
