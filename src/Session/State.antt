-- ===== src/Session/State.antt =====
-- The fields of a SpdySession and the methods that all its handlers use:
-- src/mod_spdy/common/spdy_session.cc and .h.
-- `written` holds the frames handed to the SpdySessionIO, the newest first. `executor_stopped` records
-- the call of `executor_->Stop()`: the tasks that it cancels or waits for remove their streams by
-- `remove_stream_task`, on threads of their own.
use mod_spdy.Common.{
  ℕ, ltb, ℤ, pos, ◌-ℤ◌, Bool, true, false, ◌||◌, ◌==◌, List, [], ◌∷◌, none, some, if◌then◌else◌,
}
use mod_spdy.Frame.{Frame, goaway, rst_stream, GoAwayStatus, goaway_protocol_error, RstStreamStatus}
use mod_spdy.PriorityQueue
use mod_spdy.PriorityQueue.{PriorityQueue, top_priority, insert}
use mod_spdy.Protocol.{SpdyVersion, has_stream_windows, WindowSizes}
use mod_spdy.SharedWindow
use mod_spdy.SharedWindow.{SharedWindow}
use mod_spdy.Stream.{abort_silently}
use mod_spdy.Session.StreamMap
use mod_spdy.Session.StreamMap.{
  StreamMap, get_stream, put_stream, remove_stream_task, abort_all_silently,
  adjust_all_output_window_sizes,
}

-- What becomes of a frame that is to be sent: SerializeFrame of the framer fails, or SendFrameRaw of
-- the SpdySessionIO finds the connection closed, or the frame is written.
pub data WriteResult : Type 0 where
  compression_failed connection_closed write_success : WriteResult

-- The framer and the connection, which are not part of the repository: what happens to the next frame
-- after those written so far.
abbrev pub Wire : Type 0
Wire = List Frame → Frame → WriteResult

pub record Session : Type 0 where
  pub spdy_version : SpdyVersion
  pub max_streams_per_connection : ℤ  -- of the SpdyServerConfig
  pub session_stopped : Bool
  pub already_sent_goaway : Bool
  pub last_client_stream_id : ℕ
  pub initial_window_size : ℕ
  pub max_concurrent_pushes : ℕ
  pub stream_map : StreamMap
  pub last_server_push_stream_id : ℕ
  pub received_goaway : Bool
  pub output_queue : PriorityQueue Frame
  pub shared_window : SharedWindow
  pub written : List Frame
  pub tasks_added : List (ℕ × ℕ)  -- the stream and the priority of each AddTask, newest first
  pub executor_stopped : Bool

-- The constructor; kInitMaxConcurrentPushes is 100.
unfoldable pub create : WindowSizes → SpdyVersion → ℤ → Session
unfolding StreamMap.empty PriorityQueue.empty SharedWindow.create
create sizes version max_streams = record {
  spdy_version = version;
  max_streams_per_connection = max_streams;
  session_stopped = false;
  already_sent_goaway = false;
  last_client_stream_id = 0;
  initial_window_size = sizes.initial;
  max_concurrent_pushes = 100;
  stream_map = StreamMap.empty;
  last_server_push_stream_id = 0;
  received_goaway = false;
  output_queue = PriorityQueue.empty;
  shared_window = SharedWindow.create sizes.initial (pos sizes.initial);
  written = [];
  tasks_added = [];
  executor_stopped = false;
}

-- StopSession
unfoldable pub stop_session : Session → Session
stop_session s = record s {
  session_stopped = true;
  stream_map = abort_all_silently s.stream_map;
  shared_window = SharedWindow.abort s.shared_window;
  executor_stopped = true;
}

-- What SendFrame and SendFrameRaw do on each result.
unfoldable pub after_write : Frame → WriteResult → Session → Session
unfolding stop_session
after_write f compression_failed s = stop_session s
after_write f connection_closed s = stop_session (record s { written = f ∷ s.written })
after_write f write_success s = record s { written = f ∷ s.written }

-- SendFrame, with SendFrameRaw.
unfoldable pub send_frame : Wire → Frame → Session → Session
unfolding after_write
send_frame wire f s = after_write f (wire s.written f) s

-- SendGoAwayFrame
unfoldable pub send_goaway_frame : Wire → GoAwayStatus → Session → Session
unfolding send_frame
send_goaway_frame wire status s =
    if s.already_sent_goaway
    then s
    else send_frame wire (goaway s.last_client_stream_id status)
        (record s { already_sent_goaway = true })

-- SendRstStreamFrame
unfoldable pub send_rst_stream_frame : ℕ → RstStreamStatus → Session → Session
send_rst_stream_frame id status s = record s {
  output_queue = insert top_priority (rst_stream id status) s.output_queue;
}

-- AbortStreamSilently
unfoldable pub abort_stream_silently : ℕ → Session → Session
abort_stream_silently id s = elim (get_stream id s.stream_map) [
  | none ↦ s
  | some t ↦ record s { stream_map = put_stream (abort_silently t) s.stream_map }
]

-- AbortStream
unfoldable pub abort_stream : ℕ → RstStreamStatus → Session → Session
unfolding abort_stream_silently send_rst_stream_frame
abort_stream id status s = abort_stream_silently id (send_rst_stream_frame id status s)

-- AdjustAllOutputWindowSizes, under `stream_map_lock_`.
unfoldable pub adjust_windows : WindowSizes → (delta : ℤ) → Session → Session
adjust_windows sizes delta s =
    let (m, q) = adjust_all_output_window_sizes sizes delta s.stream_map s.output_queue in
    record s { stream_map = m; output_queue = q }

-- SetInitialWindowSize. The size for new streams is written before the lock is taken; what other threads
-- may do between the two is in Session.Reach.
unfoldable pub set_initial_window_size : Wire → WindowSizes → ℕ → Session → Session
unfolding send_goaway_frame adjust_windows
set_initial_window_size wire sizes size s =
    if has_stream_windows s.spdy_version
    then (if size == 0 || ltb sizes.maximum size
        then send_goaway_frame wire goaway_protocol_error s
        else adjust_windows sizes (pos size -ℤ pos s.initial_window_size)
            (record s { initial_window_size = size }))
    else s
