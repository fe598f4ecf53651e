-- ===== src/Tests/Threads.antt =====
-- Runs of thread_pool.cc.
use mod_spdy.Common.{◌+◌, ◌≡◌, refl, true, List, [], ◌∷◌, some, arith}
use mod_spdy.ThreadPool.{
  Task, ThreadPool, create, start, may_return, add_task, take_task, on_task_complete, stop,
}
use mod_spdy.ThreadPool.Main.{Event, adds, stops, goes_on, run}
use mod_spdy.ThreadPool.Counts.{busy_for}
use mod_spdy.ThreadPool.Steps.{IsValid}
use mod_spdy.ThreadPool.Valid.{run-IsValid, start-IsValid}
use mod_spdy.ThreadPool.Stopping.{started_for, run-Stopped}
use mod_spdy.ThreadPool.Once.{queued_function, calls_of, added, run-tally}
use mod_spdy.ThreadPool.Served.{is_served, all_created, run-served}

abbrev task : Task
task = record { function = 7; owner = 1 }

abbrev other : Task
other = record { function = 8; owner = 1 }

-- One worker, at most two.
abbrev fresh : ThreadPool
fresh = (start (some 100 ∷ []) (create 1 2)).1

-- The newest step first: two tasks, of which the second is cancelled.
abbrev events : List Event
events =
    stops 1 ∷ goes_on 100 5 ∷ goes_on 100 5 ∷ adds 3 other (some 101) ∷ adds 2 task (some 101) ∷ []

-- After the two tasks, and after the steps of the thread and Stop.
abbrev queued : ThreadPool
queued = add_task 3 other (some 101) (add_task 2 task (some 101) fresh)

abbrev final : ThreadPool
final = stop 1 (on_task_complete 100 task (take_task 100 task ((3, other) ∷ []) queued))

ends : run events fresh ≡ some final
unfolding run start create may_return
ends = refl

one_cancelled : final.cancelled ≡ other ∷ []
unfolding run start create
one_cancelled = refl

run-IsValid_example : IsValid final
unfolding start create
run-IsValid_example = run-IsValid 1 2 (some 100 ∷ []) events final (omega arith) refl ends

final-IsValid : IsValid final
unfolding start create
final-IsValid = run-IsValid 1 2 (some 100 ∷ []) events final (omega arith) refl ends

run-Stopped_example :
    (busy_for 1 (add_task 2 task (some 102) final).workers ≡ 0)
    × (started_for 1 (add_task 2 task (some 102) final).started ≡ started_for 1 final.started)
unfolding start create run may_return
run-Stopped_example =
    run-Stopped 1 (adds 2 task (some 102) ∷ []) final (add_task 2 task (some 102) final)
      final-IsValid refl refl refl

run-tally_example :
    queued_function 7 final.task_queue + (calls_of 7 final.started + calls_of 7 final.cancelled)
    ≡ added 7 events
      + (queued_function 7 fresh.task_queue
          + (calls_of 7 fresh.started + calls_of 7 fresh.cancelled))
run-tally_example = run-tally 7 events fresh final ends

fresh-IsValid : IsValid fresh
unfolding start create
fresh-IsValid = start-IsValid 1 2 (some 100 ∷ []) (omega arith) refl

run-served_example : is_served final ≡ true
unfolding is_served all_created start create
run-served_example = run-served events fresh final refl fresh-IsValid refl ends
