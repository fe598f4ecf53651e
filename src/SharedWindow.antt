-- ===== src/SharedWindow.antt =====
-- The session's flow control window, shared by the streams of SPDY/3.1:
-- src/mod_spdy/common/shared_flow_control_window.cc and .h.
-- Each method runs under `lock_`, so it is one step. The input counters are an int32 each; they only
-- fall after a check and rise within the initial size, so they are natural numbers here. The output
-- window is a signed number. DCHECKs are absent from release builds and left out; CHECKs end the
-- process, and are the result `none`.
pub mod Input
pub mod Output
use mod_spdy.Common.{
  ℕ, ◌+◌, ◌-◌, ◌/◌, ltb, leb, ℤ, pos, ◌+ℤ◌, ◌-ℤ◌, ltb_ℤ, leb_ℤ, min_ℤ, Bool, true, false, not, ◌&&◌,
  Option, none, some, if◌then◌else◌,
}
use mod_spdy.PriorityQueue.{PriorityQueue, top_priority, insert}
use mod_spdy.Frame.{Frame, window_update}

pub record SharedWindow : Type 0 where
  pub is_aborted : Bool
  pub init_input_window_size : ℕ
  pub input_window_size : ℕ
  pub input_bytes_consumed : ℕ
  pub output_window_size : ℤ

unfoldable pub create : ℕ → ℤ → SharedWindow
create initial_input initial_output = record {
  is_aborted = false;
  init_input_window_size = initial_input;
  input_window_size = initial_input;
  input_bytes_consumed = 0;
  output_window_size = initial_output;
}

unfoldable pub abort : SharedWindow → SharedWindow
abort w = record w { is_aborted = true }

-- OnReceiveInputData: false if the window is too small for the data.
unfoldable pub on_receive_input_data : ℕ → SharedWindow → Bool × SharedWindow
on_receive_input_data length w =
    if w.is_aborted
    then (true, w)
    else if ltb w.input_window_size length
    then (false, w)
    else (true, record w { input_window_size = w.input_window_size - length })

-- The end of OnInputDataConsumed: the size of the WINDOW_UPDATE to send, or 0.
unfoldable pub take_update : SharedWindow → ℕ × SharedWindow
take_update w = if ltb w.input_bytes_consumed (w.init_input_window_size / 16) then (0, w) else (
  w.input_bytes_consumed,
  record w {
    input_window_size = w.input_window_size + w.input_bytes_consumed;
    input_bytes_consumed = 0;
  },
)

-- OnInputDataConsumed. `none`: a CHECK fails and the process ends.
unfoldable pub on_input_data_consumed : ℕ → SharedWindow → Option (ℕ × SharedWindow)
unfolding take_update
on_input_data_consumed length w =
    let consumed = w.input_bytes_consumed + length in
    if w.is_aborted
    then some (0, w)
    else if leb consumed w.init_input_window_size
        && leb (consumed + w.input_window_size) w.init_input_window_size
    then some (take_update (record w { input_bytes_consumed = consumed }))
    else none

-- `if (update > 0)` insert a WINDOW_UPDATE for stream 0.
unfoldable pub send_update : ℕ → PriorityQueue Frame → PriorityQueue Frame
send_update update q = if ltb 0 update then insert top_priority (window_update 0 update) q else q

-- OnInputDataConsumedSendUpdateIfNeeded
unfoldable pub on_input_data_consumed_send_update_if_needed :
    ℕ → SharedWindow → PriorityQueue Frame → Option (SharedWindow × PriorityQueue Frame)
unfolding on_input_data_consumed
on_input_data_consumed_send_update_if_needed length w q = elim (on_input_data_consumed length w) [
  | none ↦ none
  | some (update, w') ↦ some (w', send_update update q)
]

-- RequestOutputQuota. `waits`: the thread sleeps on the condition variable, and calls again.
pub data Quota : Type 0 where
  waits : Quota
  gets : ℤ → SharedWindow → Quota

unfoldable pub request_output_quota : ℤ → SharedWindow → Quota
request_output_quota requested w =
    let amount = min_ℤ requested w.output_window_size in
    if w.is_aborted
    then gets (pos 0) w
    else if leb_ℤ w.output_window_size (pos 0)
    then waits
    else gets amount (record w { output_window_size = w.output_window_size -ℤ amount })

-- IncreaseOutputWindowSize, `max` being net::kSpdyMaximumWindowSize: false on overflow.
unfoldable pub increase_output_window_size : ℕ → ℤ → SharedWindow → Bool × SharedWindow
increase_output_window_size max delta w =
    let new_size = w.output_window_size +ℤ delta in
    if w.is_aborted
    then (true, w)
    else if ltb_ℤ (pos max) new_size
    then (false, w)
    else (true, record w { output_window_size = new_size })
