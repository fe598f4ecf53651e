-- ===== src/ThreadPool/Valid.antt =====
-- The pool of thread_pool.cc through any interleaving of its threads and callers.
use mod_spdy.Common.{
  ℕ, zero, suc, ◌+◌, ◌≤◌, ltb, length, ◌≡◌, refl, ap, sym, subst, Bool, true, false, List, [], ◌∷◌,
  Option, none, some, ◌>>=◌, if◌then◌else◌, arith, Bool-cases, inl, inr,
}
use mod_spdy.ThreadPool.{
  Task, Activity, waits, runs, ThreadPool, create, start, start_workers, reap_zombies, activity_of,
  try_zombify_idle_thread, take_task,
}
use mod_spdy.ThreadPool.Main.{
  Turn, waits_on, terminates, asks_to_stop, gets_task, turn, act, thread_main, Event, reaps, adds,
  stops, goes_on, step, run,
}
use mod_spdy.ThreadPool.Counts.{busy, busy_for, queued_for, is_sorted}
use mod_spdy.ThreadPool.Steps.{
  counted, IsValid, add_task-IsValid, stop-IsValid, try_zombify-IsValid, take_task-IsValid,
  on_task_complete-IsValid,
}

-- A property of the pool, if there is one.
unfoldable pub Holds {κ} : (ThreadPool → Type κ) → Option ThreadPool → Type κ
Holds P none = Unit
Holds P (some pool) = P pool

-- What each way of going on keeps, a thread's turn keeps.
pub act-keeps {κ} :
    (P : ThreadPool → Type κ) (address time_remaining : ℕ) (pool : ThreadPool)
    → P pool
    → (pool.task_queue ≡ [] → P (try_zombify_idle_thread address pool).1)
    → ((p : ℕ) (task : Task) (rest : List (ℕ × Task))
        → pool.task_queue ≡ (p, task) ∷ rest
        → P (take_task address task rest pool))
    → P (act address (turn time_remaining pool) pool)
unfolding act turn
act-keeps P address time_remaining pool same asks takes = go pool.task_queue refl pool.shutting_down
  where
    go :
        (queue : List (ℕ × Task))
        → pool.task_queue ≡ queue
        → (b : Bool)
        → P (
            act address
              (if b then terminates else elim queue as (λ q. Turn) [
                | [] ↦ if ltb 0 time_remaining then waits_on else asks_to_stop
                | (p, task) ∷ rest ↦ gets_task task rest
              ])
              pool)
    go queue e true = same
    go ((p, task) ∷ rest) e false = takes p task rest e
    go [] e false = elim (Bool-cases (ltb 0 time_remaining)) [
      | inl more ↦ simp more same
      | inr none_left ↦ simp none_left (asks e)
    ]

thread_main-IsValid :
    (address time_remaining : ℕ) (o : Option Activity) (pool : ThreadPool)
    → IsValid pool
    → activity_of address pool.workers ≡ o
    → Holds IsValid (thread_main address time_remaining o pool)
unfolding thread_main Holds
thread_main-IsValid address time_remaining none pool v a = tt
thread_main-IsValid address time_remaining (some (runs t)) pool v a =
    on_task_complete-IsValid address t pool v a
thread_main-IsValid address time_remaining (some waits) pool v a =
    act-keeps IsValid address time_remaining pool v (λ e. try_zombify-IsValid address pool v a)
      (λ p task rest q. take_task-IsValid address p task rest pool v a q)

pub step-IsValid :
    (event : Event) (pool : ThreadPool) → IsValid pool → Holds IsValid (step event pool)
unfolding step Holds reap_zombies
step-IsValid reaps pool v = record {
  at_least = v.at_least;
  at_most = v.at_most;
  busy_is = v.busy_is;
  counts_are = v.counts_are;
  none_stopped = v.none_stopped;
  in_order = v.in_order;
}
step-IsValid (adds priority task thread) pool v = add_task-IsValid priority task thread pool v
step-IsValid (stops executor) pool v = stop-IsValid executor pool v
step-IsValid (goes_on address time_remaining) pool v =
    thread_main-IsValid address time_remaining (activity_of address pool.workers) pool v refl

-- What a step keeps, a run keeps.
pub run-keeps {κ} :
    (P : ThreadPool → Type κ)
    → ((event : Event) (pool : ThreadPool) → P pool → Holds P (step event pool))
    → (events : List Event) (pool : ThreadPool) → P pool
    → Holds P (run events pool)
unfolding run Holds
run-keeps P keeps [] pool v = v
run-keeps P keeps (event ∷ older) pool v = next (run older pool) (run-keeps P keeps older pool v)
  where
    next : (o : Option ThreadPool) → Holds P o → Holds P (o >>= step event)
    next none h = tt
    next (some p) h = keeps event p h

pub Holds-some {κ} :
    (P : ThreadPool → Type κ) (o : Option ThreadPool) (pool : ThreadPool)
    → o ≡ some pool
    → Holds P o
    → P pool
unfolding Holds
Holds-some P o pool e h = subst (Holds P) e h

-- The loop of Start.
start_workers-counts :
    (n : ℕ) (results : List (Option ℕ)) (pool : ThreadPool)
    → (start_workers n results pool).0 ≡ true
    → (busy pool.workers ≡ 0)
    → ((e : ℕ) → busy_for e pool.workers ≡ 0)
    → (length (start_workers n results pool).1.workers ≡ n + length pool.workers)
      × (busy (start_workers n results pool).1.workers ≡ 0)
      × ((e : ℕ) → busy_for e (start_workers n results pool).1.workers ≡ 0)
unfolding start_workers busy busy_for
start_workers-counts zero results pool h b f = (omega arith, b, f)
start_workers-counts (suc n) [] pool h b f = cc
start_workers-counts (suc n) (none ∷ results) pool h b f = cc
start_workers-counts (suc n) (some address ∷ results) pool h b f =
    let (l, b', f') =
      start_workers-counts n results
        (record pool { workers = record { address = address; activity = waits } ∷ pool.workers }) h
        (omega (arith, b)) (λ e. omega (arith, f e)) in
    (omega (arith, l), b', f')

start_workers-rest :
    (n : ℕ) (results : List (Option ℕ)) (pool : ThreadPool)
    → (start_workers n results pool).1
      ≡ record pool { workers = (start_workers n results pool).1.workers }
unfolding start_workers
start_workers-rest zero results pool = refl
start_workers-rest (suc n) [] pool = refl
start_workers-rest (suc n) (none ∷ results) pool = refl
start_workers-rest (suc n) (some address ∷ results) pool =
    start_workers-rest n results
      (record pool { workers = record { address = address; activity = waits } ∷ pool.workers })

-- Right after Start.
pub start-IsValid :
    (min_threads max_threads : ℕ) (results : List (Option ℕ))
    → min_threads ≤ max_threads
    → (start results (create min_threads max_threads)).0 ≡ true
    → IsValid (start results (create min_threads max_threads)).1
unfolding start create busy busy_for is_sorted queued_for
start-IsValid min_threads max_threads results m h =
    let pool = create min_threads max_threads in
    let (l, b, f) = start_workers-counts min_threads results pool h refl (λ e. refl) in
    subst IsValid (sym (start_workers-rest min_threads results pool)) (record {
      at_least = omega (arith, l);
      at_most = omega (arith, l, m);
      busy_is = sym b;
      counts_are = λ e. ap counted (sym (f e));
      none_stopped = λ e s. refl;
      in_order = refl;
    })

-- If Start succeeds on a pool with min_threads of at most max_threads, then whatever tasks are added,
-- executors stopped and turns taken by threads, in whatever order, and whether or not new threads can
-- be created: there are at least min_threads and at most max_threads workers, num_busy_workers_
-- and active_task_counts_ count the workers that run a task, in all and for each executor, with no
-- entry of 0, no task of a stopped executor is queued, and the queue is in the order of priorities.
pub run-IsValid :
    (min_threads max_threads : ℕ) (results : List (Option ℕ)) (events : List Event)
    (pool : ThreadPool)
    → min_threads ≤ max_threads
    → (start results (create min_threads max_threads)).0 ≡ true
    → run events (start results (create min_threads max_threads)).1 ≡ some pool
    → IsValid pool
run-IsValid min_threads max_threads results events pool m h e = Holds-some IsValid _ pool e (
    run-keeps IsValid step-IsValid events (start results (create min_threads max_threads)).1
      (start-IsValid min_threads max_threads results m h))
