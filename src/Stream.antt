-- ===== src/Stream.antt =====
-- One stream of a session: src/mod_spdy/common/spdy_stream.cc and .h.
-- Each method runs under `lock_`, so it is one step; `Stream.Sender` has the one method that gives the
-- lock up on its way. `s` is the stream, `q` the session's output queue, `w` its shared window. The
-- input counters are natural numbers, as `input_window_size_` falls only after a check. DCHECKs are
-- absent from release builds and left out; waking sleepers is left to the schedule.
pub mod Abort
pub mod Input
pub mod Window
pub mod Sender
use mod_spdy.Common.{
  ℕ, ◌+◌, ◌-◌, ◌/◌, ◌%◌, ltb, leb, ◌==◌, ℤ, pos, negsuc, ◌+ℤ◌, ltb_ℤ, Bool, true, false, not, ◌&&◌,
  ◌||◌, List, [], ◌∷◌, length, Option, none, some, if◌then◌else◌,
}
use mod_spdy.Frame.{
  Bytes, HeaderBlock, Frame, syn_stream, syn_reply, rst_stream, headers, window_update, data_frame,
  RstStreamStatus, flow_control_error,
}
use mod_spdy.FrameQueue
use mod_spdy.FrameQueue.{FrameQueue, PopResult}
use mod_spdy.PriorityQueue.{PriorityQueue, top_priority, insert}
use mod_spdy.Protocol.{SpdyVersion, has_stream_windows, has_shared_window, WindowSizes}
use mod_spdy.SharedWindow
use mod_spdy.SharedWindow.{SharedWindow, send_update}

pub record Stream : Type 0 where
  pub spdy_version : SpdyVersion
  pub stream_id : ℕ
  pub associated_stream_id : ℕ
  pub server_push_depth : ℕ
  pub priority : ℕ
  pub input_queue : FrameQueue Frame
  pub is_aborted : Bool
  pub output_window_size : ℤ
  pub input_window_size : ℕ
  pub input_bytes_consumed : ℕ

-- The length of the payload of a data frame, and 0 for a control frame.
unfoldable pub data_frame_length : Frame → ℕ
data_frame_length (data_frame id fin bytes) = length bytes
data_frame_length _ = 0

unfoldable pub create :
    WindowSizes → SpdyVersion → (stream_id associated_stream_id depth priority : ℕ) → ℤ → Stream
unfolding FrameQueue.empty
create sizes version id associated depth priority output_window = record {
  spdy_version = version;
  stream_id = id;
  associated_stream_id = associated;
  server_push_depth = depth;
  priority = priority;
  input_queue = FrameQueue.empty;
  is_aborted = false;
  output_window_size = output_window;
  input_window_size = sizes.initial;
  input_bytes_consumed = 0;
}

abbrev pub is_even : ℕ → Bool
is_even n = n % 2 == 0

-- is_server_push: only the server opens streams with even IDs.
abbrev pub is_server_push : Stream → Bool
is_server_push s = is_even s.stream_id

-- AbortSilently, which is InternalAbortSilently under the lock.
unfoldable pub abort_silently : Stream → Stream
unfolding FrameQueue.abort
abort_silently s = record s { input_queue = FrameQueue.abort s.input_queue; is_aborted = true }

-- AbortWithRstStream, which is InternalAbortWithRstStream under the lock.
unfoldable pub abort_with_rst_stream :
    RstStreamStatus → Stream → PriorityQueue Frame → Stream × PriorityQueue Frame
abort_with_rst_stream status s q =
    (abort_silently s, insert top_priority (rst_stream s.stream_id status) q)

unfoldable pub send_output_frame : Frame → Stream → PriorityQueue Frame → PriorityQueue Frame
send_output_frame f s q = insert (pos s.priority) f q

-- The end of OnInputDataConsumed; kMinWindowUpdateSize is an eighth of the initial window size.
unfoldable pub count_consumed :
    WindowSizes → ℕ → Stream → PriorityQueue Frame → Stream × PriorityQueue Frame
unfolding send_output_frame
count_consumed sizes size s q =
    let consumed = s.input_bytes_consumed + size in
    if ltb consumed (sizes.initial / 8)
    then (record s { input_bytes_consumed = consumed }, q)
    else (
      record s { input_window_size = s.input_window_size + consumed; input_bytes_consumed = 0 },
      send_output_frame (window_update s.stream_id consumed) s q,
    )

-- The session's share of OnInputDataConsumed. `none`: a CHECK of the shared window fails.
unfoldable pub consume_shared :
    SpdyVersion
    → ℕ
    → PriorityQueue Frame
    → SharedWindow
    → Option (PriorityQueue Frame × SharedWindow)
consume_shared version size q w =
    if has_shared_window version
    then elim (SharedWindow.on_input_data_consumed size w) [
      | none ↦ none
      | some (update, w') ↦ some (send_update update q, w')
    ]
    else some (q, w)

-- OnInputDataConsumed
unfoldable pub on_input_data_consumed :
    WindowSizes
    → ℕ
    → Stream
    → PriorityQueue Frame
    → SharedWindow
    → Option (Stream × PriorityQueue Frame × SharedWindow)
unfolding consume_shared count_consumed
on_input_data_consumed sizes size s q w =
    if not (has_stream_windows s.spdy_version) || (size == 0 || s.is_aborted)
    then some (s, q, w)
    else elim (consume_shared s.spdy_version size q w) [
      | none ↦ none
      | some (q', w') ↦
          some ((count_consumed sizes size s q').0, (count_consumed sizes size s q').1, w')
    ]

-- AdjustOutputWindowSize; the sum is taken in 64 bits, where it cannot overflow.
unfoldable pub adjust_output_window_size :
    WindowSizes → ℤ → Stream → PriorityQueue Frame → Stream × PriorityQueue Frame
unfolding abort_with_rst_stream
adjust_output_window_size sizes delta s q =
    let new_size = s.output_window_size +ℤ delta in
    if s.is_aborted
    then (s, q)
    else if ltb_ℤ (pos sizes.maximum) new_size || ltb_ℤ (new_size +ℤ pos sizes.maximum) (pos 0)
    then abort_with_rst_stream flow_control_error s q
    else (record s { output_window_size = new_size }, q)

unfoldable pub enqueue_input : Frame → Stream → Stream
enqueue_input f s = record s { input_queue = FrameQueue.insert f s.input_queue }

-- PostInputFrame
unfoldable pub post_input_frame :
    Frame → Stream → PriorityQueue Frame → Stream × PriorityQueue Frame
unfolding enqueue_input abort_with_rst_stream
post_input_frame f s q =
    let size = data_frame_length f in
    if s.is_aborted
    then (s, q)
    else if has_stream_windows s.spdy_version && ltb 0 size
    then (if ltb s.input_window_size size
        then abort_with_rst_stream flow_control_error s q
        else (enqueue_input f (record s { input_window_size = s.input_window_size - size }), q))
    else (enqueue_input f s, q)

-- GetInputFrame
unfoldable pub get_input_frame : Bool → Stream → PopResult Frame
get_input_frame block s = FrameQueue.pop block s.input_queue

-- SendOutputSynStream
unfoldable pub send_output_syn_stream :
    HeaderBlock → Bool → Stream → PriorityQueue Frame → PriorityQueue Frame
send_output_syn_stream block fin s q =
    if s.is_aborted
    then q
    else insert top_priority
        (syn_stream s.stream_id s.associated_stream_id s.priority 0 fin true block) q

-- SendOutputSynReply
unfoldable pub send_output_syn_reply :
    HeaderBlock → Bool → Stream → PriorityQueue Frame → PriorityQueue Frame
unfolding send_output_frame
send_output_syn_reply block fin s q =
    if s.is_aborted then q else send_output_frame (syn_reply s.stream_id fin block) s q

-- SendOutputHeaders
unfoldable pub send_output_headers :
    HeaderBlock → Bool → Stream → PriorityQueue Frame → PriorityQueue Frame
unfolding send_output_frame
send_output_headers block fin s q =
    if s.is_aborted then q else send_output_frame (headers s.stream_id fin block) s q
