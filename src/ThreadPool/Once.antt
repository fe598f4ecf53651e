-- ===== src/ThreadPool/Once.antt =====
-- Each task of thread_pool.cc is started or cancelled once.
use mod_spdy.Common.{
  ℕ, ◌+◌, ◌-◌, leb, length, ◌==◌, ◌≡◌, refl, ap, subst, ◌∙◌, ◌||◌, List, [], ◌∷◌, ◌++◌, Option,
  none, some, ◌>>=◌, arith, Bool-cases, inl, inr,
}
use mod_spdy.ThreadPool.{
  Task, Activity, waits, runs, ThreadPool, reap_zombies, add_task, enqueue,
  start_new_worker_if_needed, stop, activity_of, tasks_of_others, tasks_to_cancel,
  try_zombify_idle_thread, take_task, on_task_complete,
}
use mod_spdy.ThreadPool.Main.{thread_main, Event, reaps, adds, stops, goes_on, step, run}
use mod_spdy.ThreadPool.Counts.{one_if}
use mod_spdy.ThreadPool.Valid.{Holds, Holds-some, act-keeps}

-- How often a function stands in a list of tasks, and in the queue.
unfoldable pub calls_of : ℕ → List Task → ℕ
calls_of f [] = 0
calls_of f (t ∷ ts) = one_if (t.function == f) + calls_of f ts

unfoldable pub queued_function : ℕ → List (ℕ × Task) → ℕ
queued_function f [] = 0
queued_function f ((p, t) ∷ queue) = one_if (t.function == f) + queued_function f queue

-- Where the tasks with a function are.
abbrev pub tally : ℕ → ThreadPool → ℕ
tally f pool =
    queued_function f pool.task_queue + (calls_of f pool.started + calls_of f pool.cancelled)

-- The tasks with a function that the steps add.
unfoldable pub added : ℕ → List Event → ℕ
added f [] = 0
added f (adds priority task thread ∷ events) = one_if (task.function == f) + added f events
added f (reaps ∷ events) = added f events
added f (stops executor ∷ events) = added f events
added f (goes_on address time_remaining ∷ events) = added f events

calls_of-append :
    (f : ℕ) (xs ys : List Task) → calls_of f (xs ++ ys) ≡ calls_of f xs + calls_of f ys
unfolding calls_of
calls_of-append f [] ys = omega arith
calls_of-append f (x ∷ xs) ys = omega (arith, calls_of-append f xs ys)

queued_function-enqueue :
    (f priority : ℕ) (t : Task) (queue : List (ℕ × Task))
    → queued_function f (enqueue priority t queue)
      ≡ one_if (t.function == f) + queued_function f queue
unfolding queued_function enqueue
queued_function-enqueue f priority t [] = refl
queued_function-enqueue f priority t ((p, u) ∷ queue) =
    ground (arith, queued_function-enqueue f priority t queue)

queued_function-cancel :
    (f executor : ℕ) (queue : List (ℕ × Task))
    → queued_function f (tasks_of_others executor queue)
        + calls_of f (tasks_to_cancel executor queue)
      ≡ queued_function f queue
unfolding queued_function calls_of tasks_of_others tasks_to_cancel
queued_function-cancel f executor [] = omega arith
queued_function-cancel f executor ((p, u) ∷ queue) =
    ground (arith, queued_function-cancel f executor queue)

tally-start_new_worker :
    (f : ℕ) (thread : Option ℕ) (pool : ThreadPool)
    → tally f (start_new_worker_if_needed thread pool) ≡ tally f pool
unfolding start_new_worker_if_needed
tally-start_new_worker f none pool = refl
tally-start_new_worker f (some address) pool =
    elim (Bool-cases (
      leb pool.max_threads (length pool.workers)
      || leb (length pool.task_queue) (length pool.workers - pool.num_busy_workers))) [
        | inl enough ↦ simp enough refl
        | inr more ↦ simp more refl
      ]

tally-add_task :
    (f priority : ℕ) (t : Task) (thread : Option ℕ) (pool : ThreadPool)
    → tally f (add_task priority t thread pool) ≡ one_if (t.function == f) + tally f pool
unfolding add_task calls_of
tally-add_task f priority t thread pool = elim (Bool-cases (pool.stopped t.owner)) [
  | inl over ↦ simp over (omega arith)
  | inr on ↦ simp on (
      tally-start_new_worker f thread
        (record pool { task_queue = enqueue priority t pool.task_queue })
      ∙ omega (arith, queued_function-enqueue f priority t pool.task_queue))
]

tally-stop : (f executor : ℕ) (pool : ThreadPool) → tally f (stop executor pool) ≡ tally f pool
unfolding stop
tally-stop f executor pool = elim (Bool-cases (pool.stopped executor)) [
  | inl over ↦ simp over refl
  | inr on ↦ simp on (
      omega (
        arith,
        queued_function-cancel f executor pool.task_queue,
        calls_of-append f (tasks_to_cancel executor pool.task_queue) pool.cancelled,
      ))
]

tally-zombify :
    (f address : ℕ) (pool : ThreadPool)
    → tally f (try_zombify_idle_thread address pool).1 ≡ tally f pool
unfolding try_zombify_idle_thread
tally-zombify f address pool = elim (Bool-cases (leb (length pool.workers) pool.min_threads)) [
  | inl few ↦ simp few refl
  | inr more ↦ simp more refl
]

tally-take :
    (f address p : ℕ) (t : Task) (rest : List (ℕ × Task)) (pool : ThreadPool)
    → pool.task_queue ≡ (p, t) ∷ rest
    → tally f (take_task address t rest pool) ≡ tally f pool
unfolding take_task queued_function calls_of
tally-take f address p t rest pool eq = omega (arith, ap (queued_function f) eq)

thread_main-tally :
    (f address time_remaining : ℕ) (o : Option Activity) (pool : ThreadPool)
    → Holds (λ p. tally f p ≡ tally f pool) (thread_main address time_remaining o pool)
unfolding thread_main Holds on_task_complete
thread_main-tally f address time_remaining none pool = tt
thread_main-tally f address time_remaining (some (runs t)) pool = refl
thread_main-tally f address time_remaining (some waits) pool =
    act-keeps (λ p. tally f p ≡ tally f pool) address time_remaining pool refl
      (λ e. tally-zombify f address pool)
      (λ p task rest eq. tally-take f address p task rest pool eq)

step-tally :
    (f : ℕ) (event : Event) (pool : ThreadPool)
    → Holds (λ p. tally f p ≡ added f (event ∷ []) + tally f pool) (step event pool)
unfolding step Holds reap_zombies added
step-tally f reaps pool = omega arith
step-tally f (adds priority task thread) pool =
    tally-add_task f priority task thread pool ∙ omega arith
step-tally f (stops executor) pool = tally-stop f executor pool ∙ omega arith
step-tally f (goes_on address time_remaining) pool =
    subst
      (λ n.
        Holds (λ p. tally f p ≡ n)
          (thread_main address time_remaining (activity_of address pool.workers) pool))
      (omega arith)
      (thread_main-tally f address time_remaining (activity_of address pool.workers) pool)

added-step :
    (f : ℕ) (event : Event) (events : List Event)
    → added f (event ∷ events) ≡ added f (event ∷ []) + added f events
unfolding added
added-step f reaps events = omega arith
added-step f (adds priority task thread) events = omega arith
added-step f (stops executor) events = omega arith
added-step f (goes_on address time_remaining) events = omega arith

run-Holds :
    (f : ℕ) (events : List Event) (pool : ThreadPool)
    → Holds (λ p. tally f p ≡ added f events + tally f pool) (run events pool)
unfolding run Holds added
run-Holds f [] pool = omega arith
run-Holds f (event ∷ older) pool = next (run older pool) (run-Holds f older pool)
  where
    after :
        (n m : ℕ)
        → n ≡ m
        → (o : Option ThreadPool) → Holds (λ p. tally f p ≡ n) o
        → Holds (λ p. tally f p ≡ m) o
    after n m e o h = subst (λ k. Holds (λ p. tally f p ≡ k) o) e h

    next :
        (o : Option ThreadPool)
        → Holds (λ p. tally f p ≡ added f older + tally f pool) o
        → Holds (λ p. tally f p ≡ added f (event ∷ older) + tally f pool) (o >>= step event)
    next none h = tt
    next (some p) h =
        after (added f (event ∷ []) + tally f p) (added f (event ∷ older) + tally f pool)
          (omega (arith, h, added-step f event older)) (step event p) (step-tally f event p)

-- Over any steps of the threads and the callers, the tasks with a function that are queued, started
-- or cancelled are, taken together, those that were at first and those that the steps have added: no
-- task is lost, and none is started or cancelled twice or both.
pub run-tally :
    (f : ℕ) (events : List Event) (pool pool' : ThreadPool)
    → run events pool ≡ some pool'
    → queued_function f pool'.task_queue + (calls_of f pool'.started + calls_of f pool'.cancelled)
      ≡ added f events
        + (queued_function f pool.task_queue
            + (calls_of f pool.started + calls_of f pool.cancelled))
run-tally f events pool pool' eq =
    Holds-some (λ p. tally f p ≡ added f events + tally f pool) (run events pool) pool' eq
      (run-Holds f events pool)
