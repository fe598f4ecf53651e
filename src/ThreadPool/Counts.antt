-- ===== src/ThreadPool/Counts.antt =====
-- What the counters of thread_pool.cc count, and the queue's order.
use mod_spdy.Common.{
  ◌&&◌, ℕ, suc, ◌+◌, ◌≤◌, leb, length, ◌==◌, ◌≡◌, refl, Bool, true, false, List, [], ◌∷◌, some,
  if◌then◌else◌, arith,
}
use mod_spdy.ThreadPool.{
  Task, Activity, waits, runs, Worker, activity_of, set_activity, erase_worker, enqueue,
  tasks_of_others,
}

abbrev pub one_if : Bool → ℕ
one_if true = 1
one_if false = 0

-- The workers that run a task.
unfoldable pub busy : List Worker → ℕ
busy [] = 0
busy (w ∷ workers) = (elim w.activity as (λ _. ℕ) [ waits ↦ 0 | runs t ↦ 1 ]) + busy workers

-- The workers that run a task of the executor.
abbrev pub runs_for : ℕ → Activity → ℕ
runs_for executor waits = 0
runs_for executor (runs t) = one_if (t.owner == executor)

unfoldable pub busy_for : ℕ → List Worker → ℕ
busy_for executor [] = 0
busy_for executor (w ∷ workers) = runs_for executor w.activity + busy_for executor workers

pub set_activity-length :
    (address : ℕ) (a : Activity) (ws : List Worker) → length (set_activity address a ws) ≡ length ws
unfolding set_activity
set_activity-length address a [] = refl
set_activity-length address a (w ∷ ws) = ground (arith, set_activity-length address a ws)

pub busy_le : (ws : List Worker) → busy ws ≤ length ws
unfolding busy
busy_le [] = omega arith
busy_le (w ∷ ws) = ground (arith, busy_le ws)

pub busy-takes :
    (address : ℕ) (t : Task) (ws : List Worker)
    → activity_of address ws ≡ some waits
    → busy (set_activity address (runs t) ws) ≡ suc (busy ws)
unfolding busy set_activity activity_of
busy-takes address t [] h = cc
busy-takes address t (w ∷ ws) h = ground (arith, busy-takes address t ws)

pub busy-completes :
    (address : ℕ) (t : Task) (ws : List Worker)
    → activity_of address ws ≡ some (runs t)
    → suc (busy (set_activity address waits ws)) ≡ busy ws
unfolding busy set_activity activity_of
busy-completes address t [] h = cc
busy-completes address t (w ∷ ws) h = ground (arith, busy-completes address t ws)

pub busy_for-takes :
    (e address : ℕ) (t : Task) (ws : List Worker)
    → activity_of address ws ≡ some waits
    → busy_for e (set_activity address (runs t) ws) ≡ one_if (t.owner == e) + busy_for e ws
unfolding busy_for set_activity activity_of
busy_for-takes e address t [] h = cc
busy_for-takes e address t (w ∷ ws) h = ground (arith, busy_for-takes e address t ws)

pub busy_for-completes :
    (e address : ℕ) (t : Task) (ws : List Worker)
    → activity_of address ws ≡ some (runs t)
    → one_if (t.owner == e) + busy_for e (set_activity address waits ws) ≡ busy_for e ws
unfolding busy_for set_activity activity_of
busy_for-completes e address t [] h = cc
busy_for-completes e address t (w ∷ ws) h = ground (arith, busy_for-completes e address t ws)

-- A worker that waits leaves.
pub erase_worker-counts :
    (e address : ℕ) (ws : List Worker)
    → activity_of address ws ≡ some waits
    → (busy (erase_worker address ws) ≡ busy ws)
      × (busy_for e (erase_worker address ws) ≡ busy_for e ws)
      × (suc (length (erase_worker address ws)) ≡ length ws)
unfolding busy busy_for erase_worker activity_of
erase_worker-counts e address [] h = cc
erase_worker-counts e address (w ∷ ws) h = ground (arith, erase_worker-counts e address ws)

-- A worker that waits is not busy.
pub busy_lt :
    (address : ℕ) (ws : List Worker)
    → activity_of address ws ≡ some waits
    → suc (busy ws) ≤ length ws
unfolding busy activity_of
busy_lt address [] h = cc
busy_lt address (w ∷ ws) h = ground (arith, busy_lt address ws, busy_le ws)

-- The queued tasks of an executor.
unfoldable pub queued_for : ℕ → List (ℕ × Task) → ℕ
queued_for e [] = 0
queued_for e ((p, t) ∷ queue) = one_if (t.owner == e) + queued_for e queue

pub queued_for-enqueue :
    (e priority : ℕ) (t : Task) (queue : List (ℕ × Task))
    → queued_for e (enqueue priority t queue) ≡ one_if (t.owner == e) + queued_for e queue
unfolding queued_for enqueue
queued_for-enqueue e priority t [] = refl
queued_for-enqueue e priority t ((p, u) ∷ queue) =
    ground (arith, queued_for-enqueue e priority t queue)

pub queued_for-others :
    (e executor : ℕ) (queue : List (ℕ × Task))
    → queued_for e (tasks_of_others executor queue)
      ≡ (if e == executor then 0 else queued_for e queue)
unfolding queued_for tasks_of_others
queued_for-others e executor [] = ground arith
queued_for-others e executor ((p, u) ∷ queue) = ground (arith, queued_for-others e executor queue)

pub enqueue-length :
    (priority : ℕ) (t : Task) (queue : List (ℕ × Task))
    → length (enqueue priority t queue) ≡ suc (length queue)
unfolding enqueue
enqueue-length priority t [] = refl
enqueue-length priority t ((p, u) ∷ queue) = ground (arith, enqueue-length priority t queue)

pub others-length :
    (executor : ℕ) (queue : List (ℕ × Task))
    → length (tasks_of_others executor queue) ≤ length queue
unfolding tasks_of_others
others-length executor [] = omega arith
others-length executor ((p, u) ∷ queue) = ground (arith, others-length executor queue)

-- Every priority is at least the given one, and the queue is in their order.
unfoldable pub is_sorted : ℕ → List (ℕ × Task) → Bool
is_sorted low [] = true
is_sorted low ((p, t) ∷ queue) = leb low p && is_sorted p queue

pub is_sorted-enqueue :
    (low priority : ℕ) (t : Task) (queue : List (ℕ × Task))
    → is_sorted low queue ≡ true
    → low ≤ priority
    → is_sorted low (enqueue priority t queue) ≡ true
unfolding is_sorted enqueue
is_sorted-enqueue low priority t [] h l = ground arith
is_sorted-enqueue low priority t ((p, u) ∷ queue) h l =
    ground (arith, is_sorted-enqueue p priority t queue)

is_sorted-lower :
    (low high : ℕ) (queue : List (ℕ × Task))
    → is_sorted high queue ≡ true
    → low ≤ high
    → is_sorted low queue ≡ true
unfolding is_sorted
is_sorted-lower low high [] h l = refl
is_sorted-lower low high ((p, u) ∷ queue) h l = ground arith

pub is_sorted-rest :
    (low p : ℕ) (t : Task) (queue : List (ℕ × Task))
    → is_sorted low ((p, t) ∷ queue) ≡ true
    → is_sorted low queue ≡ true
unfolding is_sorted
is_sorted-rest low p t queue h = ground (arith, is_sorted-lower low p queue)

pub is_sorted-others :
    (low executor : ℕ) (queue : List (ℕ × Task))
    → is_sorted low queue ≡ true
    → is_sorted low (tasks_of_others executor queue) ≡ true
unfolding is_sorted tasks_of_others
is_sorted-others low executor [] h = refl
is_sorted-others low executor ((p, u) ∷ queue) h = ground (
  arith,
  is_sorted-others p executor queue,
  is_sorted-lower low p (tasks_of_others executor queue),
)
