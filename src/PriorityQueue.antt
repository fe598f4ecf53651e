-- ===== src/PriorityQueue.antt =====
-- The output queue of a session: src/mod_spdy/common/spdy_frame_priority_queue.cc and .h.
-- `queue_map` is the std::map in the order of its keys, an int each; the least key is the most
-- urgent. Each method runs under `lock_`, so it is one step.
pub mod Order
pub mod Waiting
use mod_spdy.Common.{
  ℕ, ℤ, pos, negsuc, ltb_ℤ, eqb_ℤ, ◌-ℤ◌, Bool, true, false, ◌&&◌, List, [], ◌∷◌, ◌++◌, Option, none,
  some, if◌then◌else◌,
}

pub record PriorityQueue {ℓ} (A : Type ℓ) : Type ℓ where
  pub queue_map : List (ℤ × List A)

-- What a call of `BlockingPop` comes to: it sleeps, returns false, or returns true with a frame.
pub data Blocking {ℓ} (A : Type ℓ) : Type ℓ where
  sleeps : Blocking A
  timed_out : Blocking A
  popped : A → PriorityQueue A → Blocking A

-- kTopPriority
abbrev pub top_priority : ℤ
top_priority = negsuc 0

module _ {ℓ} {A : Type ℓ} where
  unfoldable pub empty : PriorityQueue A
  empty = record { queue_map = [] }

  abbrev pub is_nil : List (ℤ × List A) → Bool
  is_nil [] = true
  is_nil (e ∷ m) = false

  unfoldable pub is_empty : PriorityQueue A → Bool
  is_empty q = is_nil q.queue_map

  -- The list of the priority gets the frame at its end, and is made if the map has none.
  unfoldable pub insert_at : ℤ → A → List (ℤ × List A) → List (ℤ × List A)
  insert_at p f [] = (p, f ∷ []) ∷ []
  insert_at p f ((k, l) ∷ m) =
      if ltb_ℤ p k
      then (p, f ∷ []) ∷ (k, l) ∷ m
      else if eqb_ℤ p k
      then (k, l ++ f ∷ []) ∷ m
      else (k, l) ∷ insert_at p f m

  unfoldable pub insert : ℤ → A → PriorityQueue A → PriorityQueue A
  unfolding insert_at
  insert p f q = record { queue_map = insert_at p f q.queue_map }

  -- The rest of the first list goes back, unless it is empty.
  abbrev pub keep_rest : ℤ → List A → List (ℤ × List A) → List (ℤ × List A)
  keep_rest k [] m = m
  keep_rest k (f ∷ l) m = (k, f ∷ l) ∷ m

  -- The first list is never empty (`Order.IsValid`); the code reads its front unchecked.
  unfoldable pub pop_at : List (ℤ × List A) → Option (A × PriorityQueue A)
  pop_at [] = none
  pop_at ((k, []) ∷ m) = none
  pop_at ((k, f ∷ l) ∷ m) = some (f, record { queue_map = keep_rest k l m })

  -- InternalPop, which `Pop` calls under the lock.
  unfoldable pub pop : PriorityQueue A → Option (A × PriorityQueue A)
  unfolding pop_at
  pop q = pop_at q.queue_map

  unfoldable pub insert_all : List (ℤ × A) → PriorityQueue A → PriorityQueue A
  insert_all [] q = q
  insert_all ((p, f) ∷ fs) q = insert_all fs (insert p f q)

  abbrev pub leave : Option (A × PriorityQueue A) → Blocking A
  leave none = timed_out
  leave (some (f, q)) = popped f q

  -- A `wake` is one return of TimedWait: the time that passed, and what other threads inserted
  -- meanwhile. With no wake left the thread is still asleep.
  unfoldable pub blocking_pop : ℤ → List (ℤ × List (ℤ × A)) → PriorityQueue A → Blocking A
  blocking_pop remaining [] q =
      if ltb_ℤ (pos 0) remaining && is_empty q then sleeps else leave (pop q)
  blocking_pop remaining ((passed, inserted) ∷ wakes) q =
      let again = blocking_pop (remaining -ℤ passed) wakes (insert_all inserted q) in
      if ltb_ℤ (pos 0) remaining && is_empty q then again else leave (pop q)
