-- ===== src/ThreadPool/Served.antt =====
-- Whether thread_pool.cc has enough threads for its tasks.
use mod_spdy.Common.{
  ℕ, suc, ◌-◌, leb, length, ◌≡◌, ap, Bool, true, false, ◌||◌, List, [], ◌∷◌, Option, none, some,
  ◌>>=◌, arith,
}
use mod_spdy.ThreadPool.{
  Task, Activity, waits, runs, ThreadPool, reap_zombies, add_task, start_new_worker_if_needed, stop,
  activity_of, try_zombify_idle_thread, take_task, on_task_complete,
}
use mod_spdy.ThreadPool.Main.{thread_main, Event, reaps, adds, stops, goes_on, step, run}
use mod_spdy.ThreadPool.Counts.{set_activity-length, busy_le, enqueue-length, others-length}
use mod_spdy.ThreadPool.Steps.{IsValid}
use mod_spdy.ThreadPool.Valid.{Holds, Holds-some, act-keeps, step-IsValid}

-- Each queued task has an idle worker, or there are as many workers as allowed.
unfoldable pub is_served : ThreadPool → Bool
is_served pool =
    leb (length pool.task_queue) (length pool.workers - pool.num_busy_workers)
    || leb pool.max_threads (length pool.workers)

-- The system can create a thread whenever it is asked.
unfoldable pub all_created : List Event → Bool
all_created [] = true
all_created (adds priority task none ∷ events) = false
all_created (adds priority task (some address) ∷ events) = all_created events
all_created (reaps ∷ events) = all_created events
all_created (stops executor ∷ events) = all_created events
all_created (goes_on address time_remaining ∷ events) = all_created events

abbrev IsServed : ThreadPool → Type 0
IsServed pool = IsValid pool × (is_served pool ≡ true)

add_task-served :
    (priority : ℕ) (t : Task) (address : ℕ) (pool : ThreadPool)
    → IsValid pool
    → is_served pool ≡ true
    → is_served (add_task priority t (some address) pool) ≡ true
unfolding add_task start_new_worker_if_needed is_served
add_task-served priority t address pool v s =
    ground (arith, s, v.busy_is, busy_le pool.workers, enqueue-length priority t pool.task_queue)

stop-served :
    (executor : ℕ) (pool : ThreadPool)
    → is_served pool ≡ true
    → is_served (stop executor pool) ≡ true
unfolding stop is_served
stop-served executor pool s = ground (arith, s, others-length executor pool.task_queue)

zombify-served :
    (address : ℕ) (pool : ThreadPool)
    → is_served pool ≡ true
    → pool.task_queue ≡ []
    → is_served (try_zombify_idle_thread address pool).1 ≡ true
unfolding try_zombify_idle_thread is_served
zombify-served address pool s e = ground (arith, s, ap length e)

take-served :
    (address p : ℕ) (t : Task) (rest : List (ℕ × Task)) (pool : ThreadPool)
    → is_served pool ≡ true
    → pool.task_queue ≡ (p, t) ∷ rest
    → is_served (take_task address t rest pool) ≡ true
unfolding take_task is_served
take-served address p t rest pool s e =
    let longer : length pool.task_queue ≡ suc (length rest) = ap length e in
    ground (arith, s, longer, set_activity-length address (runs t) pool.workers)

complete-served :
    (address : ℕ) (t : Task) (pool : ThreadPool)
    → is_served pool ≡ true
    → is_served (on_task_complete address t pool) ≡ true
unfolding on_task_complete is_served
complete-served address t pool s = ground (arith, s, set_activity-length address waits pool.workers)

thread_main-served :
    (address time_remaining : ℕ) (o : Option Activity) (pool : ThreadPool)
    → is_served pool ≡ true
    → Holds (λ p. is_served p ≡ true) (thread_main address time_remaining o pool)
unfolding thread_main Holds
thread_main-served address time_remaining none pool s = tt
thread_main-served address time_remaining (some (runs t)) pool s = complete-served address t pool s
thread_main-served address time_remaining (some waits) pool s =
    act-keeps (λ p. is_served p ≡ true) address time_remaining pool s
      (zombify-served address pool s) (λ p task rest e. take-served address p task rest pool s e)

step-served :
    (event : Event) (older : List Event) (pool : ThreadPool)
    → all_created (event ∷ older) ≡ true
    → IsValid pool
    → is_served pool ≡ true
    → Holds (λ p. is_served p ≡ true) (step event pool)
unfolding step Holds reap_zombies all_created is_served
step-served reaps older pool c v s = s
step-served (adds priority task none) older pool c v s = cc
step-served (adds priority task (some address)) older pool c v s =
    add_task-served priority task address pool v s
step-served (stops executor) older pool c v s = stop-served executor pool s
step-served (goes_on address time_remaining) older pool c v s =
    thread_main-served address time_remaining (activity_of address pool.workers) pool s

all_created-rest :
    (event : Event) (older : List Event)
    → all_created (event ∷ older) ≡ true
    → all_created older ≡ true
unfolding all_created
all_created-rest reaps older c = c
all_created-rest (adds priority task none) older c = cc
all_created-rest (adds priority task (some address)) older c = c
all_created-rest (stops executor) older c = c
all_created-rest (goes_on address time_remaining) older c = c

run-IsServed :
    (events : List Event) (pool : ThreadPool)
    → all_created events ≡ true
    → IsValid pool
    → is_served pool ≡ true
    → Holds IsServed (run events pool)
unfolding run Holds
run-IsServed [] pool c v s = (v, s)
run-IsServed (event ∷ older) pool c v s =
    next (run older pool) (run-IsServed older pool (all_created-rest event older c) v s)
  where
    both :
        (o : Option ThreadPool)
        → Holds IsValid o
        → Holds (λ p. is_served p ≡ true) o
        → Holds IsServed o
    both none h k = tt
    both (some p) h k = (h, k)

    next : (o : Option ThreadPool) → Holds IsServed o → Holds IsServed (o >>= step event)
    next none h = tt
    next (some p) (v', s') =
        both (step event p) (step-IsValid event p v') (step-served event older p c v' s')

-- In a valid pool in which each queued task has an idle worker or there are max_threads workers, this
-- stays so, whatever tasks are added, executors stopped and turns taken by threads, if threads can be
-- created whenever the pool asks for one: no task waits while the pool could have one more
-- worker for it.
pub run-served :
    (events : List Event) (pool pool' : ThreadPool)
    → all_created events ≡ true
    → IsValid pool
    → is_served pool ≡ true
    → run events pool ≡ some pool'
    → is_served pool' ≡ true
run-served events pool pool' c v s e =
    (Holds-some IsServed (run events pool) pool' e (run-IsServed events pool c v s)).1
