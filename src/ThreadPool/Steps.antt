-- ===== src/ThreadPool/Steps.antt =====
-- What holds of the pool of thread_pool.cc whenever its lock is free, and that each operation keeps it.
use mod_spdy.Common.{
  ℕ, zero, suc, ◌+◌, ◌-◌, ◌≤◌, leb, length, ◌==◌, ==_iff, ◌≡◌, refl, ap, sym, ◌∙◌, true, ◌||◌, List,
  ◌∷◌, Option, none, some, if◌then◌else◌, arith, Bool-cases, inl, inr,
}
use mod_spdy.ThreadPool.{
  Task, waits, runs, ThreadPool, enqueue, start_new_worker_if_needed, add_task, stop, activity_of,
  set_activity, try_zombify_idle_thread, take_task, count_or_zero, one_less, on_task_complete,
}
use mod_spdy.ThreadPool.Counts.{
  one_if, busy, busy_for, set_activity-length, busy-takes, busy-completes, busy_for-takes,
  busy_for-completes, erase_worker-counts, queued_for, queued_for-enqueue, queued_for-others,
  is_sorted, is_sorted-enqueue, is_sorted-rest, is_sorted-others,
}

-- An entry of active_task_counts_: there is none for a count of 0.
abbrev pub counted : ℕ → Option ℕ
counted zero = none
counted (suc n) = some (suc n)

pub record IsValid (pool : ThreadPool) : Type 0 where
  pub at_least : pool.min_threads ≤ length pool.workers
  pub at_most : length pool.workers ≤ pool.max_threads
  pub busy_is : pool.num_busy_workers ≡ busy pool.workers
  pub counts_are : (e : ℕ) → pool.active_task_counts e ≡ counted (busy_for e pool.workers)
  pub none_stopped : (e : ℕ) → pool.stopped e ≡ true → queued_for e pool.task_queue ≡ 0
  pub in_order : is_sorted 0 pool.task_queue ≡ true

pub start_new_worker-IsValid :
    (thread : Option ℕ) (pool : ThreadPool)
    → IsValid pool
    → IsValid (start_new_worker_if_needed thread pool)
unfolding start_new_worker_if_needed busy busy_for
start_new_worker-IsValid none pool v = v
start_new_worker-IsValid (some address) pool v =
    elim (Bool-cases (
      leb pool.max_threads (length pool.workers)
      || leb (length pool.task_queue) (length pool.workers - pool.num_busy_workers))) [
        | inl enough ↦ simp enough v
        | inr more ↦ simp more (record {
          at_least = ground (arith, v.at_least);
          at_most = ground (arith, more);
          busy_is = ground (arith, v.busy_is);
          counts_are = λ e. v.counts_are e ∙ ap counted (omega arith);
          none_stopped = v.none_stopped;
          in_order = v.in_order;
        })
      ]

pub add_task-IsValid :
    (priority : ℕ) (t : Task) (thread : Option ℕ) (pool : ThreadPool)
    → IsValid pool
    → IsValid (add_task priority t thread pool)
unfolding add_task
add_task-IsValid priority t thread pool v = elim (Bool-cases (pool.stopped t.owner)) [
  | inl over ↦ simp over (record {
    at_least = v.at_least;
    at_most = v.at_most;
    busy_is = v.busy_is;
    counts_are = v.counts_are;
    none_stopped = v.none_stopped;
    in_order = v.in_order;
  })
  | inr on ↦ simp on (
      start_new_worker-IsValid thread
        (record pool { task_queue = enqueue priority t pool.task_queue })
        (record {
          at_least = v.at_least;
          at_most = v.at_most;
          busy_is = v.busy_is;
          counts_are = v.counts_are;
          none_stopped = λ e s.
              ground
                (arith, on, s, v.none_stopped e s, queued_for-enqueue e priority t pool.task_queue);
          in_order = is_sorted-enqueue 0 priority t pool.task_queue v.in_order (omega arith);
        }))
]

pub stop-IsValid : (executor : ℕ) (pool : ThreadPool) → IsValid pool → IsValid (stop executor pool)
unfolding stop
stop-IsValid executor pool v = elim (Bool-cases (pool.stopped executor)) [
  | inl over ↦ simp over v
  | inr on ↦ simp on (record {
    at_least = v.at_least;
    at_most = v.at_most;
    busy_is = v.busy_is;
    counts_are = v.counts_are;
    none_stopped =
        λ e s. ground (arith, s, v.none_stopped e, queued_for-others e executor pool.task_queue);
    in_order = is_sorted-others 0 executor pool.task_queue v.in_order;
  })
]

pub try_zombify-IsValid :
    (address : ℕ) (pool : ThreadPool)
    → IsValid pool
    → activity_of address pool.workers ≡ some waits
    → IsValid (try_zombify_idle_thread address pool).1
unfolding try_zombify_idle_thread
try_zombify-IsValid address pool v a =
    elim (Bool-cases (leb (length pool.workers) pool.min_threads)) [
      | inl few ↦ simp few v
      | inr more ↦ simp more (record {
        at_least = ground (arith, more, erase_worker-counts 0 address pool.workers a);
        at_most = ground (arith, v.at_most, erase_worker-counts 0 address pool.workers a);
        busy_is = ground (arith, v.busy_is, erase_worker-counts 0 address pool.workers a);
        counts_are =
            λ e. v.counts_are e ∙ ap counted (sym (erase_worker-counts e address pool.workers a).1);
        none_stopped = v.none_stopped;
        in_order = v.in_order;
      })
    ]

count_or_zero-counted : (n : ℕ) → count_or_zero (counted n) ≡ n
count_or_zero-counted zero = refl
count_or_zero-counted (suc n) = refl

count_take :
    (e owner n m : ℕ) (counts : ℕ → Option ℕ)
    → counts e ≡ counted n
    → m ≡ one_if (owner == e) + n
    → (if e == owner then some (suc (count_or_zero (counts owner))) else counts e) ≡ counted m
count_take e owner n m counts h k = elim (Bool-cases (e == owner)) [
  | inl same ↦
      let eq = (==_iff e owner).0 same in
      let counts_owner = ap (λ x. count_or_zero (counts x)) (sym eq) ∙ ap count_or_zero h in
      simp same (ground (arith, same, counts_owner, count_or_zero-counted n, k))
  | inr other ↦ simp other (h ∙ ap counted (ground (arith, other, k)))
]

pub take_task-IsValid :
    (address p : ℕ) (t : Task) (rest : List (ℕ × Task)) (pool : ThreadPool)
    → IsValid pool
    → activity_of address pool.workers ≡ some waits
    → pool.task_queue ≡ (p, t) ∷ rest
    → IsValid (take_task address t rest pool)
unfolding take_task queued_for
take_task-IsValid address p t rest pool v a q = record {
  at_least = ground (arith, v.at_least, set_activity-length address (runs t) pool.workers);
  at_most = ground (arith, v.at_most, set_activity-length address (runs t) pool.workers);
  busy_is = ground (arith, v.busy_is, busy-takes address t pool.workers a);
  counts_are = λ e.
      count_take e t.owner (busy_for e pool.workers)
        (busy_for e (set_activity address (runs t) pool.workers)) pool.active_task_counts
        (v.counts_are e) (busy_for-takes e address t pool.workers a);
  none_stopped = λ e s. ground (arith, ap (queued_for e) q, v.none_stopped e s);
  in_order = is_sorted-rest 0 p t rest (ap (is_sorted 0) (sym q) ∙ v.in_order);
}

one_less-counted : (n : ℕ) → one_less (counted (suc n)) ≡ counted n
one_less-counted zero = ground arith
one_less-counted (suc n) = ground arith

count_complete :
    (e owner n m : ℕ) (counts : ℕ → Option ℕ)
    → counts e ≡ counted n
    → one_if (owner == e) + m ≡ n
    → (if e == owner then one_less (counts owner) else counts e) ≡ counted m
count_complete e owner n m counts h k = elim (Bool-cases (e == owner)) [
  | inl same ↦
      let eq = (==_iff e owner).0 same in
      let n_is : n ≡ suc m = ground (arith, same, k) in
      simp same (
        ap (λ x. one_less (counts x)) (sym eq)
        ∙ ap one_less (h ∙ ap counted n_is)
        ∙ one_less-counted m)
  | inr other ↦ let n_is : n ≡ m = ground (arith, other, k) in simp other (h ∙ ap counted n_is)
]

pub on_task_complete-IsValid :
    (address : ℕ) (t : Task) (pool : ThreadPool)
    → IsValid pool
    → activity_of address pool.workers ≡ some (runs t)
    → IsValid (on_task_complete address t pool)
unfolding on_task_complete
on_task_complete-IsValid address t pool v a = record {
  at_least = ground (arith, v.at_least, set_activity-length address waits pool.workers);
  at_most = ground (arith, v.at_most, set_activity-length address waits pool.workers);
  busy_is = ground (arith, v.busy_is, busy-completes address t pool.workers a);
  counts_are = λ e.
      count_complete e t.owner (busy_for e pool.workers)
        (busy_for e (set_activity address waits pool.workers)) pool.active_task_counts
        (v.counts_are e) (busy_for-completes e address t pool.workers a);
  none_stopped = v.none_stopped;
  in_order = v.in_order;
}
