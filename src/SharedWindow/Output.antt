-- ===== src/SharedWindow/Output.antt =====
-- The output half of shared_flow_control_window.cc over any interleaving of stream threads that ask
-- for quota and a connection thread that passes on the client's WINDOW_UPDATE frames.
use mod_spdy.Common.{
  ℕ, ◌+◌, ◌≤◌, ◌<◌, pos, pos_part, neg_part, ◌+ℤ◌, ◌-ℤ◌, ◌≤ℤ◌, ◌<ℤ◌, min_ℤ, ◌≡◌, refl, ◌⊎◌, true,
  false, arith,
}
use mod_spdy.SharedWindow.{
  SharedWindow, Quota, waits, gets, create, abort, request_output_quota,
  increase_output_window_size,
}

-- A window with the bytes that its streams may send, and those that the client has allowed.
pub record Account : Type 0 where
  pub window : SharedWindow
  pub taken : ℕ
  pub allowed : ℕ

abbrev pub open_account : ℕ → Account
open_account init = record { window = create init (pos init); taken = 0; allowed = init }

-- One call on a window: `max` is net::kSpdyMaximumWindowSize.
pub data Step (max : ℕ) (a : Account) : Account → Type 0 where
  takes :
      (requested amount : ℕ) {w : SharedWindow}
      → 0 < requested
      → request_output_quota (pos requested) a.window ≡ gets (pos amount) w
      → Step max a (record a { window = w; taken = a.taken + amount })
  allows :
      (delta : ℕ) {w : SharedWindow}
      → a.window.is_aborted ≡ false
      → increase_output_window_size max (pos delta) a.window ≡ (true, w)
      → Step max a (record a { window = w; allowed = a.allowed + delta })
  stops : Step max a (record a { window = abort a.window })

pub data Reach (max init : ℕ) : Account → Type 0 where
  here : Reach max init (open_account init)
  next : {a b : Account} → Reach max init a → Step max a b → Reach max init b

pub record IsBalanced (max : ℕ) (a : Account) : Type 0 where
  pub nonneg : neg_part a.window.output_window_size ≡ 0
  pub below : pos_part a.window.output_window_size ≤ max
  pub spent : pos_part a.window.output_window_size + a.taken ≡ a.allowed

Step-IsBalanced : {max : ℕ} {a b : Account} → Step max a b → IsBalanced max a → IsBalanced max b
unfolding request_output_quota increase_output_window_size abort ◌+ℤ◌ ◌-ℤ◌
Step-IsBalanced (takes requested amount h e) v = ground arith
Step-IsBalanced (allows delta h e) v = ground arith
Step-IsBalanced stops v = ground arith

Reach-IsBalanced : {max init : ℕ} {a : Account} → init ≤ max → Reach max init a → IsBalanced max a
unfolding create
Reach-IsBalanced h here = record { nonneg = refl; below = h; spent = omega arith }
Reach-IsBalanced h (next r st) = Step-IsBalanced st (Reach-IsBalanced h r)

-- However the threads interleave, what the streams have taken is exactly what the client has allowed
-- less what is left in the window; the window is never negative and never above the maximum.
pub quota_lem :
    {max init : ℕ} {a : Account}
    → init ≤ max
    → Reach max init a
    → (a.window.output_window_size +ℤ pos a.taken ≡ pos a.allowed)
      × (a.taken ≤ a.allowed)
      × (a.window.output_window_size ≤ℤ pos max)
unfolding ◌+ℤ◌
quota_lem h r = let v = Reach-IsBalanced h r in ground arith

-- RequestOutputQuota on every branch: it sleeps exactly if the window is open and not positive; an
-- aborted window gives 0 and stays as it is; else the caller gets a positive amount, no more than it
-- asked for nor than there is, which leaves the window, and gets all it asked for if there is enough.
abbrev pub GivesQuota : ℕ → SharedWindow → Quota → Type 0
GivesQuota requested w waits = (w.is_aborted ≡ false) × (w.output_window_size ≤ℤ pos 0)
GivesQuota requested w (gets amount w') =
    ((w.is_aborted ≡ true) × (amount ≡ pos 0) × (w' ≡ w))
    ⊎ ((w.is_aborted ≡ false)
        × (pos 0 <ℤ amount)
        × (w'.output_window_size +ℤ amount ≡ w.output_window_size)
        × (amount ≡ min_ℤ (pos requested) w.output_window_size))

-- RequestOutputQuota for a positive request on any window, on every branch.
pub request_output_quota-GivesQuota :
    (requested : ℕ) (w : SharedWindow)
    → 0 < requested
    → GivesQuota requested w (request_output_quota (pos requested) w)
unfolding request_output_quota ◌+ℤ◌ ◌-ℤ◌
request_output_quota-GivesQuota requested w h = ground arith
