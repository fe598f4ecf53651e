-- ===== src/Tests/Queues.antt =====
-- Runs of spdy_frame_queue.cc and spdy_frame_priority_queue.cc.
use mod_spdy.Common.{
  ◌-ℤ◌, ℕ, ◌≡◌, ◌≢◌, refl, ℤ, pos, negsuc, true, false, List, [], ◌∷◌, none, some, arith,
}
use mod_spdy.FrameQueue
use mod_spdy.FrameQueue.Fifo.{Call, inserts, pops, aborts, run, step}
use mod_spdy.PriorityQueue
use mod_spdy.PriorityQueue.{PriorityQueue, popped, sleeps, top_priority}
use mod_spdy.PriorityQueue.Order.{IsValid, PopsFirst, pop-PopsFirst}
use mod_spdy.PriorityQueue.Waiting.{blocking_pop-ne-sleeps}
use mod_spdy.FrameQueue.Fifo.{spec_run, view, run-eq-spec_run}

abbrev five_calls : List (Call ℕ)
five_calls = inserts 1 ∷ inserts 2 ∷ pops true ∷ aborts ∷ pops false ∷ []

run-eq-spec_run_example :
    run five_calls FrameQueue.empty ≡ spec_run five_calls (view FrameQueue.empty)
run-eq-spec_run_example = run-eq-spec_run five_calls FrameQueue.empty

-- The oldest frame comes out; after Abort nothing does.
run_outcome : run five_calls FrameQueue.empty ≡ some 1 ∷ none ∷ []
unfolding run step FrameQueue.empty FrameQueue.insert FrameQueue.pop FrameQueue.abort
run_outcome = refl

abbrev two_priorities : PriorityQueue ℕ
two_priorities = record { queue_map = (negsuc 0, 7 ∷ []) ∷ (pos 3, 5 ∷ 6 ∷ []) ∷ [] }

two_priorities-IsValid : IsValid two_priorities
two_priorities-IsValid = ((λ e. cc), ((omega arith), (λ e. cc), tt))

pop-PopsFirst_example : PopsFirst two_priorities (PriorityQueue.pop two_priorities)
pop-PopsFirst_example = pop-PopsFirst two_priorities two_priorities-IsValid

abbrev two_wakes : List (ℤ × List (ℤ × ℕ))
two_wakes = (pos 1, []) ∷ (pos 1, (pos 0, 4) ∷ []) ∷ []

blocking_pop-ne-sleeps_example :
    PriorityQueue.blocking_pop (pos 2) two_wakes PriorityQueue.empty ≢ sleeps
blocking_pop-ne-sleeps_example =
    blocking_pop-ne-sleeps (pos 2) two_wakes PriorityQueue.empty (omega arith) (omega arith)

abbrev quiet_wakes : List (ℤ × List (ℤ × ℕ))
quiet_wakes = (pos 1, []) ∷ (pos 2, []) ∷ []

gives_up :
    PriorityQueue.blocking_pop (pos 2) quiet_wakes PriorityQueue.empty ≡ PriorityQueue.timed_out
unfolding PriorityQueue.blocking_pop PriorityQueue.empty PriorityQueue.is_empty
    PriorityQueue.insert_all PriorityQueue.pop ◌-ℤ◌
gives_up = refl

-- A frame of top priority overtakes those of priority 3.
pop_outcome :
    PriorityQueue.pop {A = ℕ}
      (PriorityQueue.insert top_priority 7 (PriorityQueue.insert (pos 3) 5 PriorityQueue.empty))
    ≡ some (7, record { queue_map = (pos 3, 5 ∷ []) ∷ [] })
unfolding PriorityQueue.pop PriorityQueue.insert PriorityQueue.empty
pop_outcome = refl
