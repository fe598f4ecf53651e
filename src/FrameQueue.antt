-- ===== src/FrameQueue.antt =====
-- The input queue of a stream: src/mod_spdy/common/spdy_frame_queue.cc and .h.
-- The head of `queue` is the front of the std::list. Each method runs under `lock_`, so it is one
-- step; a wait on the condition variable is the result `waits`, after which `pop` is called anew.
pub mod Fifo
use mod_spdy.Common.{
  ◌≡◌, Bool, true, false, not, ◌&&◌, List, [], ◌∷◌, Option, none, some, if◌then◌else◌,
}

pub record FrameQueue {ℓ} (A : Type ℓ) : Type ℓ where
  pub is_aborted : Bool
  pub queue : List A

-- What a call of `Pop` comes to: it sleeps, returns false, or returns true with a frame.
pub data PopResult {ℓ} (A : Type ℓ) : Type ℓ where
  waits : PopResult A
  nothing : PopResult A
  frame : A → FrameQueue A → PopResult A

module _ {ℓ} {A : Type ℓ} where
  abbrev pub is_empty : List A → Bool
  is_empty [] = true
  is_empty (x ∷ xs) = false

  -- `back` and `pop_back` of a list.
  unfoldable pub split_back : List A → Option (List A × A)
  split_back [] = none
  split_back (x ∷ xs) = elim (split_back xs) [
    | none ↦ some ([], x)
    | some (rest, last) ↦ some (x ∷ rest, last)
  ]

  unfoldable pub empty : FrameQueue A
  empty = record { is_aborted = false; queue = [] }

  unfoldable pub abort : FrameQueue A → FrameQueue A
  abort q = record { is_aborted = true; queue = [] }

  unfoldable pub insert : A → FrameQueue A → FrameQueue A
  insert f q = if q.is_aborted then q else record q { queue = f ∷ q.queue }

  take_back : Option (List A × A) → FrameQueue A → PopResult A
  take_back none q = nothing
  take_back (some (rest, f)) q = frame f (record q { queue = rest })

  unfoldable pub pop : Bool → FrameQueue A → PopResult A
  unfolding split_back take_back
  pop block q =
      if block && (is_empty q.queue && not q.is_aborted)
      then waits
      else take_back (split_back q.queue) q
