-- ===== src/ThreadPool/Stopping.antt =====
-- After Stop of an executor of thread_pool.cc has returned.
use mod_spdy.Common.{
  ℕ, zero, suc, ◌+◌, ◌-◌, leb, length, ◌==◌, ◌≡◌, refl, ap, sym, ◌∙◌, Bool, true, false, ◌||◌, List,
  [], ◌∷◌, Option, none, some, arith, Bool-cases, inl, inr,
}
use mod_spdy.ThreadPool.{
  Task, Activity, waits, runs, ThreadPool, reap_zombies, add_task, enqueue,
  start_new_worker_if_needed, stop, may_return, activity_of, try_zombify_idle_thread, take_task,
  on_task_complete,
}
use mod_spdy.ThreadPool.Main.{thread_main, Event, reaps, adds, stops, goes_on, step, run}
use mod_spdy.ThreadPool.Counts.{
  one_if, busy_for, queued_for, busy_for-takes, busy_for-completes, erase_worker-counts,
  queued_for-enqueue, queued_for-others,
}
use mod_spdy.ThreadPool.Steps.{counted, IsValid}
use mod_spdy.ThreadPool.Valid.{Holds, Holds-some, act-keeps, run-keeps}

-- The started tasks of an executor.
unfoldable pub started_for : ℕ → List Task → ℕ
started_for e [] = 0
started_for e (t ∷ ts) = one_if (t.owner == e) + started_for e ts

record IsQuiet (e n : ℕ) (pool : ThreadPool) : Type 0 where
  is_stopped : pool.stopped e ≡ true
  none_queued : queued_for e pool.task_queue ≡ 0
  none_active : busy_for e pool.workers ≡ 0
  as_many_started : started_for e pool.started ≡ n

start_new_worker-IsQuiet :
    (e n : ℕ) (thread : Option ℕ) (pool : ThreadPool)
    → IsQuiet e n pool
    → IsQuiet e n (start_new_worker_if_needed thread pool)
unfolding start_new_worker_if_needed busy_for
start_new_worker-IsQuiet e n none pool q = q
start_new_worker-IsQuiet e n (some address) pool q =
    elim (Bool-cases (
      leb pool.max_threads (length pool.workers)
      || leb (length pool.task_queue) (length pool.workers - pool.num_busy_workers))) [
        | inl enough ↦ simp enough q
        | inr more ↦ simp more (record {
          is_stopped = q.is_stopped;
          none_queued = q.none_queued;
          none_active = omega (arith, q.none_active);
          as_many_started = q.as_many_started;
        })
      ]

add_task-IsQuiet :
    (e n priority : ℕ) (t : Task) (thread : Option ℕ) (pool : ThreadPool)
    → IsQuiet e n pool
    → IsQuiet e n (add_task priority t thread pool)
unfolding add_task
add_task-IsQuiet e n priority t thread pool q = elim (Bool-cases (pool.stopped t.owner)) [
  | inl over ↦ simp over (record {
    is_stopped = q.is_stopped;
    none_queued = q.none_queued;
    none_active = q.none_active;
    as_many_started = q.as_many_started;
  })
  | inr on ↦ simp on (
      start_new_worker-IsQuiet e n thread
        (record pool { task_queue = enqueue priority t pool.task_queue })
        (record {
          is_stopped = q.is_stopped;
          none_queued = ground (
            arith,
            on,
            q.is_stopped,
            q.none_queued,
            queued_for-enqueue e priority t pool.task_queue,
          );
          none_active = q.none_active;
          as_many_started = q.as_many_started;
        }))
]

stop-IsQuiet :
    (e n executor : ℕ) (pool : ThreadPool) → IsQuiet e n pool → IsQuiet e n (stop executor pool)
unfolding stop
stop-IsQuiet e n executor pool q = elim (Bool-cases (pool.stopped executor)) [
  | inl over ↦ simp over q
  | inr on ↦ simp on (record {
    is_stopped = ground (arith, q.is_stopped);
    none_queued = ground (arith, q.none_queued, queued_for-others e executor pool.task_queue);
    none_active = q.none_active;
    as_many_started = q.as_many_started;
  })
]

zombify-IsQuiet :
    (e n address : ℕ) (pool : ThreadPool)
    → activity_of address pool.workers ≡ some waits
    → IsQuiet e n pool
    → IsQuiet e n (try_zombify_idle_thread address pool).1
unfolding try_zombify_idle_thread
zombify-IsQuiet e n address pool a q =
    elim (Bool-cases (leb (length pool.workers) pool.min_threads)) [
      | inl few ↦ simp few q
      | inr more ↦ simp more (record {
        is_stopped = q.is_stopped;
        none_queued = q.none_queued;
        none_active = (erase_worker-counts e address pool.workers a).1 ∙ q.none_active;
        as_many_started = q.as_many_started;
      })
    ]

take-IsQuiet :
    (e n address p : ℕ) (t : Task) (rest : List (ℕ × Task)) (pool : ThreadPool)
    → activity_of address pool.workers ≡ some waits
    → IsQuiet e n pool
    → pool.task_queue ≡ (p, t) ∷ rest
    → IsQuiet e n (take_task address t rest pool)
unfolding take_task queued_for started_for
take-IsQuiet e n address p t rest pool a q eq =
    let none_here : one_if (t.owner == e) + queued_for e rest ≡ 0 =
      ap (queued_for e) (sym eq) ∙ q.none_queued in
    record {
      is_stopped = q.is_stopped;
      none_queued = omega (arith, none_here);
      none_active =
          omega (arith, none_here, q.none_active, busy_for-takes e address t pool.workers a);
      as_many_started = omega (arith, none_here, q.as_many_started);
    }

thread_main-IsQuiet :
    (e n address time_remaining : ℕ) (o : Option Activity) (pool : ThreadPool)
    → IsQuiet e n pool
    → activity_of address pool.workers ≡ o
    → Holds (IsQuiet e n) (thread_main address time_remaining o pool)
unfolding thread_main Holds on_task_complete
thread_main-IsQuiet e n address time_remaining none pool q a = tt
thread_main-IsQuiet e n address time_remaining (some (runs t)) pool q a = record {
  is_stopped = q.is_stopped;
  none_queued = q.none_queued;
  none_active = omega (arith, q.none_active, busy_for-completes e address t pool.workers a);
  as_many_started = q.as_many_started;
}
thread_main-IsQuiet e n address time_remaining (some waits) pool q a =
    act-keeps (IsQuiet e n) address time_remaining pool q
      (λ eq. zombify-IsQuiet e n address pool a q)
      (λ p task rest eq. take-IsQuiet e n address p task rest pool a q eq)

step-IsQuiet :
    (e n : ℕ) (event : Event) (pool : ThreadPool)
    → IsQuiet e n pool
    → Holds (IsQuiet e n) (step event pool)
unfolding step Holds reap_zombies
step-IsQuiet e n reaps pool q = record {
  is_stopped = q.is_stopped;
  none_queued = q.none_queued;
  none_active = q.none_active;
  as_many_started = q.as_many_started;
}
step-IsQuiet e n (adds priority task thread) pool q =
    add_task-IsQuiet e n priority task thread pool q
step-IsQuiet e n (stops executor) pool q = stop-IsQuiet e n executor pool q
step-IsQuiet e n (goes_on address time_remaining) pool q =
    thread_main-IsQuiet e n address time_remaining (activity_of address pool.workers) pool q refl

not_counted :
    (n : ℕ) (o : Option ℕ)
    → o ≡ counted n
    → (elim o as (λ o. Bool) [ none ↦ true | some n ↦ false ]) ≡ true
    → n ≡ 0
not_counted zero o h r = refl
not_counted (suc n) none h r = cc
not_counted (suc n) (some m) h r = cc

-- In a valid pool, if an executor has been stopped and the condition holds on which Stop
-- returns, then none of the executor's tasks runs, and none is ever started again, whatever tasks are
-- added, executors stopped and turns taken by threads afterwards.
pub run-Stopped :
    (e : ℕ) (events : List Event) (pool pool' : ThreadPool)
    → IsValid pool
    → pool.stopped e ≡ true
    → may_return e pool ≡ true
    → run events pool ≡ some pool'
    → (busy_for e pool'.workers ≡ 0) × (started_for e pool'.started ≡ started_for e pool.started)
unfolding may_return
run-Stopped e events pool pool' v s r eq =
    let first : IsQuiet e (started_for e pool.started) pool = record {
      is_stopped = s;
      none_queued = v.none_stopped e s;
      none_active =
          not_counted (busy_for e pool.workers) (pool.active_task_counts e) (v.counts_are e) r;
      as_many_started = refl;
    } in
    let last = Holds-some (IsQuiet e (started_for e pool.started)) (run events pool) pool' eq (
      run-keeps (IsQuiet e (started_for e pool.started))
        (step-IsQuiet e (started_for e pool.started)) events pool first) in
    (last.none_active, last.as_many_started)
