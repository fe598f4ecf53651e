-- ===== src/FrameQueue/Fifo.antt =====
-- The queue of spdy_frame_queue.cc against a list, oldest frame first.
use mathlib.Core.List.{reverse, reverse-cons}
use mod_spdy.Common.{
  ◌≡◌, refl, ap, ◌∙◌, ◌⊎◌, inl, inr, Bool, true, not, ◌&&◌, List, [], ◌∷◌, ◌++◌, Option, none, some,
  arith, if◌then◌else◌,
}
use mod_spdy.FrameQueue.{
  FrameQueue, waits, nothing, frame, split_back, take_back, abort, insert, pop,
}

-- The frames, oldest first.
abbrev pub contents {ℓ} : {A : Type ℓ} → FrameQueue A → List A
contents q = reverse q.queue

-- An aborted queue holds nothing.
abbrev pub IsValid {ℓ} : {A : Type ℓ} → FrameQueue A → Type ℓ
IsValid q = q.is_aborted ≡ true → q.queue ≡ []

-- The calls that the threads make on a queue.
pub data Call {ℓ} (A : Type ℓ) : Type ℓ where
  inserts : A → Call A
  pops : Bool → Call A
  aborts : Call A

-- The specification: a first-in first-out list, and whether it is shut.
pub record Fifo {ℓ} (A : Type ℓ) : Type ℓ where
  pub shut : Bool
  pub waiting : List A

module _ {ℓ} {A : Type ℓ} where
  -- What the calls of `Pop` return: a frame, or none where the call returns false or sleeps.
  unfoldable pub step : Call A → FrameQueue A → FrameQueue A × List (Option A)
  step (inserts f) q = (insert f q, [])
  step (pops block) q = elim (pop block q) [
    | waits ↦ (q, [])
    | nothing ↦ (q, none ∷ [])
    | frame f q' ↦ (q', some f ∷ [])
  ]
  step aborts q = (abort q, [])

  unfoldable pub run : List (Call A) → FrameQueue A → List (Option A)
  run [] q = []
  run (c ∷ cs) q = (step c q).1 ++ run cs (step c q).0

  abbrev next : Bool → Bool → List A → Fifo A → Fifo A × List (Option A)
  next block shut [] s = (s, if block && not shut then [] else none ∷ [])
  next block shut (f ∷ rest) s = (record s { waiting = rest }, some f ∷ [])

  unfoldable pub spec_step : Call A → Fifo A → Fifo A × List (Option A)
  spec_step (inserts f) s = (if s.shut then s else record s { waiting = s.waiting ++ f ∷ [] }, [])
  spec_step (pops block) s = next block s.shut s.waiting s
  spec_step aborts s = (record { shut = true; waiting = [] }, [])

  unfoldable pub spec_run : List (Call A) → Fifo A → List (Option A)
  spec_run [] s = []
  spec_run (c ∷ cs) s = (spec_step c s).1 ++ spec_run cs (spec_step c s).0

  abbrev pub view : FrameQueue A → Fifo A
  view q = record { shut = q.is_aborted; waiting = contents q }

  -- The back of the list is the head of its reverse.
  abbrev Backs : List A → Option (List A × A) → Type ℓ
  Backs xs r =
      ((xs ≡ []) × (r ≡ none))
      ⊎ ((rest : List A) × (last : A) × (r ≡ some (rest, last))
          × (reverse xs ≡ last ∷ reverse rest))

  split_back-reverse : (xs : List A) → Backs xs (split_back xs)
  unfolding split_back
  split_back-reverse [] = inl (refl, refl)
  split_back-reverse (x ∷ xs) = elim (split_back-reverse xs) [
    | inl (e, n) ↦ inr ([], x, rw n, rw e)
    | inr (rest, last, e, r) ↦
        inr (x ∷ rest, last, rw e, reverse-cons x xs ∙ (rw (r, reverse-cons x rest)))
  ]

  -- Every call keeps the queue of an aborted stream empty.
  pub step-IsValid : (c : Call A) (q : FrameQueue A) → IsValid q → IsValid (step c q).0
  unfolding step insert abort pop split_back
  step-IsValid (inserts f) q v = ground arith
  step-IsValid (pops block) q v = ground (arith, split_back-reverse q.queue)
  step-IsValid aborts q v = λ e. refl

  insert-step :
      (f : A) (q : FrameQueue A) → spec_step (inserts f) (view q) ≡ (view (insert f q), [])
  unfolding insert spec_step
  insert-step f q = ground (arith, reverse-cons f q.queue)

  pop-step :
      (block : Bool) (q : FrameQueue A)
      → spec_step (pops block) (view q) ≡ (view (step (pops block) q).0, (step (pops block) q).1)
  unfolding pop step spec_step take_back
  pop-step block q = elim (split_back-reverse q.queue) [
    | inl (e, n) ↦ ground (arith, e, n)
    | inr (rest, last, e, r) ↦ ground (arith, e, r)
  ]

  step-view :
      (c : Call A) (q : FrameQueue A) → spec_step c (view q) ≡ (view (step c q).0, (step c q).1)
  unfolding step spec_step abort
  step-view (inserts f) q = insert-step f q
  step-view (pops block) q = pop-step block q
  step-view aborts q = refl

  -- Any calls of Insert, Pop and Abort give a caller what a first-in first-out list gives: frames
  -- come out in the order in which they went in, and an aborted queue drops and returns nothing.
  pub run-eq-spec_run : (cs : List (Call A)) (q : FrameQueue A) → run cs q ≡ spec_run cs (view q)
  unfolding run spec_run
  run-eq-spec_run [] q = refl
  run-eq-spec_run (c ∷ cs) q =
      rw (step-view c q) (ap (◌++◌ (step c q).1) (run-eq-spec_run cs (step c q).0))
