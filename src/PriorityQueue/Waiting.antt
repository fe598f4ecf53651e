-- ===== src/PriorityQueue/Waiting.antt =====
-- BlockingPop of spdy_frame_priority_queue.cc, over the waits on its condition variable.
use mod_spdy.Common.{
  true, none, ◌+ℤ◌, +ℤ_parts, ◌≤ℤ◌, ℤ, pos, pos_part, ◌-ℤ◌, -ℤ_parts, length, ◌≤◌, ◌<ℤ◌, ◌≡◌, ◌≢◌,
  refl, List, [], ◌∷◌, none, arith,
}
use mod_spdy.PriorityQueue.{
  PriorityQueue, sleeps, blocking_pop, is_empty, insert, pop_at, pop, insert_all, is_nil, timed_out,
}
use mod_spdy.PriorityQueue.Order.{IsValid, IsSorted, insert-frames_at}

module _ {A : Type 0} where
  -- Every return of TimedWait comes after some time.
  abbrev pub Passes : List (ℤ × List (ℤ × A)) → Type 0
  Passes [] = Unit
  Passes ((passed, inserted) ∷ wakes) = (pos 0 <ℤ passed) × Passes wakes

  -- BlockingPop comes back: if every wake takes at least one unit of time, as many wakes as the
  -- timeout has units are enough for it to return true or false.
  pub blocking_pop-ne-sleeps :
      (remaining : ℤ) (wakes : List (ℤ × List (ℤ × A))) (q : PriorityQueue A)
      → Passes wakes
      → pos_part remaining ≤ length wakes
      → blocking_pop remaining wakes q ≢ sleeps
  unfolding blocking_pop is_empty
  blocking_pop-ne-sleeps remaining [] q ps h = ground arith
  blocking_pop-ne-sleeps remaining ((passed, inserted) ∷ wakes) q ps h = ground (
    arith,
    -ℤ_parts remaining passed,
    blocking_pop-ne-sleeps (remaining -ℤ passed) wakes (insert_all inserted q),
  )

  insert_all-IsValid :
      (fs : List (ℤ × A)) (q : PriorityQueue A) → IsValid q → IsValid (insert_all fs q)
  unfolding insert_all
  insert_all-IsValid [] q v = v
  insert_all-IsValid ((p, f) ∷ fs) q v =
      insert_all-IsValid fs (insert p f q) (insert-frames_at p f q v).0

  -- The time that all the waits took.
  abbrev pub total : List (ℤ × List (ℤ × A)) → ℤ
  total [] = pos 0
  total ((passed, inserted) ∷ wakes) = passed +ℤ total wakes

  total-nonneg : (wakes : List (ℤ × List (ℤ × A))) → Passes wakes → pos 0 ≤ℤ total wakes
  total-nonneg [] ps = omega arith
  total-nonneg ((passed, inserted) ∷ wakes) ps =
      ground (arith, +ℤ_parts passed (total wakes), total-nonneg wakes)

  pop-none : (q : PriorityQueue A) → IsValid q → pop q ≡ none → is_empty q ≡ true
  unfolding pop pop_at is_empty
  pop-none q v e = go q.queue_map v e
    where
      go : (m : List (ℤ × List A)) → IsSorted m → pop_at m ≡ none → is_nil m ≡ true
      go [] s e = refl
      go ((k, []) ∷ m) s e = absurd (s.0 refl)
      go ((k, f ∷ l) ∷ m) s e = cc

  -- BlockingPop does not give up early: if it returns false, then the whole timeout has passed in its
  -- waits, and there was no frame when it was called.
  pub blocking_pop-timed_out :
      (remaining : ℤ) (wakes : List (ℤ × List (ℤ × A))) (q : PriorityQueue A)
      → IsValid q
      → Passes wakes
      → blocking_pop remaining wakes q ≡ timed_out
      → (is_empty q ≡ true) × (remaining ≤ℤ total wakes)
  unfolding blocking_pop
  blocking_pop-timed_out remaining [] q v ps e = ground (arith, pop-none q v)
  blocking_pop-timed_out remaining ((passed, inserted) ∷ wakes) q v ps e = ground (
    arith,
    pop-none q v,
    -ℤ_parts remaining passed,
    +ℤ_parts passed (total wakes),
    total-nonneg wakes,
    blocking_pop-timed_out (remaining -ℤ passed) wakes (insert_all inserted q)
        (insert_all-IsValid inserted q v) ps.1,
  )
