-- ===== src/SharedWindow/Input.antt =====
-- The input half of shared_flow_control_window.cc over any sequence of calls: what the client has
-- sent, what the streams have consumed, and what the client has been told by WINDOW_UPDATE frames.
use mod_spdy.Common.{ℕ, ◌+◌, ◌/◌, ◌≤◌, ◌≡◌, ◌≢◌, ◌⊎◌, refl, pos, true, false, none, some, arith}
use mod_spdy.SharedWindow.{
  SharedWindow, create, on_receive_input_data, on_input_data_consumed, take_update,
}

-- A window with the totals of the calls so far.
pub record Account : Type 0 where
  pub window : SharedWindow
  pub received : ℕ
  pub consumed : ℕ
  pub granted : ℕ

abbrev pub open_account : ℕ → Account
open_account init = record {
  window = create init (pos init);
  received = 0;
  consumed = 0;
  granted = 0;
}

-- The connection thread receives data that the window has room for; a stream thread consumes no
-- more than has been received, and what the call returns is sent in a WINDOW_UPDATE.
pub data Step (a : Account) : Account → Type 0 where
  receives :
      (n : ℕ) {w : SharedWindow}
      → on_receive_input_data n a.window ≡ (true, w)
      → Step a (record a { window = w; received = a.received + n })
  consumes :
      (n update : ℕ) {w : SharedWindow}
      → a.consumed + n ≤ a.received
      → on_input_data_consumed n a.window ≡ some (update, w)
      → Step a (record a { window = w; consumed = a.consumed + n; granted = a.granted + update })

pub data Reach (init : ℕ) : Account → Type 0 where
  here : Reach init (open_account init)
  next : {a b : Account} → Reach init a → Step a b → Reach init b

-- The window is the credit that the client still has, and what is consumed but not granted back
-- stays below a sixteenth of the initial size.
pub record IsBalanced (init : ℕ) (a : Account) : Type 0 where
  pub running : a.window.is_aborted ≡ false
  pub initial : a.window.init_input_window_size ≡ init
  pub credit : a.window.input_window_size + a.received ≡ init + a.granted
  pub pending : a.consumed ≡ a.granted + a.window.input_bytes_consumed
  pub within : a.consumed ≤ a.received

Step-IsBalanced : {init : ℕ} {a b : Account} → Step a b → IsBalanced init a → IsBalanced init b
unfolding on_receive_input_data on_input_data_consumed take_update
Step-IsBalanced (receives n e) v = ground arith
Step-IsBalanced (consumes n update h e) v = ground arith

Reach-IsBalanced : {init : ℕ} {a : Account} → Reach init a → IsBalanced init a
unfolding create
Reach-IsBalanced {init} here = record {
  running = refl;
  initial = refl;
  credit = omega arith;
  pending = omega arith;
  within = omega arith;
}
Reach-IsBalanced (next r st) = Step-IsBalanced st (Reach-IsBalanced r)

-- After any calls on a window that is not aborted, in which no more is consumed than received, the
-- input window is exactly the credit of the client: the initial size, less all bytes received, plus
-- all bytes granted by WINDOW_UPDATE. The client never has more than the initial size outstanding.
pub credit_lem :
    {init : ℕ} {a : Account}
    → Reach init a
    → (a.window.input_window_size + a.received ≡ init + a.granted)
      × (a.received ≤ init + a.granted)
      × (a.window.input_window_size ≤ init)
credit_lem r = let v = Reach-IsBalanced r in omega arith

-- The CHECKs of OnInputDataConsumed never fail: after any such calls, a stream that consumes data
-- which has been received gets an answer.
pub on_input_data_consumed-ne-none :
    {init : ℕ} {a : Account} (n : ℕ)
    → Reach init a
    → a.consumed + n ≤ a.received
    → on_input_data_consumed n a.window ≢ none
unfolding on_input_data_consumed take_update
on_input_data_consumed-ne-none n r h = let v = Reach-IsBalanced r in ground arith

-- No update is lost and none is small: a call returns 0 and goes on counting, or returns all that
-- was consumed since the last update, at least a sixteenth of the initial size, and gives just
-- that much back to the window.
pub on_input_data_consumed-update :
    (n update : ℕ) (w w' : SharedWindow)
    → w.is_aborted ≡ false
    → on_input_data_consumed n w ≡ some (update, w')
    → (w'.input_window_size ≡ w.input_window_size + update)
      × (w'.input_bytes_consumed + update ≡ w.input_bytes_consumed + n)
      × ((update ≡ 0) ⊎ (w.init_input_window_size / 16 ≤ update))
unfolding on_input_data_consumed take_update
on_input_data_consumed-update n update w w' h e = ground arith
