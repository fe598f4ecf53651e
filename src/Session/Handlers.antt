-- ===== src/Session/Handlers.antt =====
-- The callbacks of the framer, which the connection thread runs while it reads input:
-- src/mod_spdy/common/spdy_session.cc. Each is one step; `stream_map_lock_` is not recursive.
use mod_spdy.Common.{
  ℕ, ◌==◌, pos, leb_ℤ, max, length, Bool, true, false, not, ◌∷◌, Option, none, some, if◌then◌else◌,
}
use mod_spdy.Frame.{
  Bytes, HeaderBlock, Frame, syn_stream, ping, data_frame, GoAwayStatus, goaway_protocol_error,
  RstStreamStatus, protocol_error, invalid_stream, refused_stream, SettingsId,
  max_concurrent_streams, initial_window_size, other_settings, other_goaway,
}
use mod_spdy.PriorityQueue.{PriorityQueue}
use mod_spdy.Protocol.{has_stream_windows, has_shared_window, WindowSizes, as_int32}
use mod_spdy.SharedWindow
use mod_spdy.Stream
use mod_spdy.Stream.{Stream, is_even, post_input_frame, adjust_output_window_size}
use mod_spdy.Session.StreamMap
use mod_spdy.Session.StreamMap.{
  StreamMap, get_stream, put_stream, is_stream_active, add_stream_task,
}
use mod_spdy.Session.State.{
  Session, Wire, write_success, stop_session, send_frame, send_goaway_frame, send_rst_stream_frame,
  abort_stream_silently, abort_stream, set_initial_window_size,
}

-- What the framer reports.
pub data Event : Type 0 where
  error : Event
  stream_error : (stream_id : ℕ) → Event
  stream_frame_data : (stream_id : ℕ) → Bytes → (fin : Bool) → Event
  syn_stream_event :
      (stream_id associated_stream_id priority slot : ℕ) (fin unidirectional : Bool)
      → HeaderBlock
      → Event
  syn_reply_event : (stream_id : ℕ) (fin : Bool) → HeaderBlock → Event
  rst_stream_event : (stream_id : ℕ) → RstStreamStatus → Event
  settings_event : (clear_persisted : Bool) → Event
  setting : SettingsId → (flags value : ℕ) → Event
  ping_event : (unique_id : ℕ) → Event
  goaway_event : (last_accepted_stream_id : ℕ) → GoAwayStatus → Event
  headers_event : (stream_id : ℕ) (fin : Bool) → HeaderBlock → Event
  push_promise : (stream_id promised_stream_id : ℕ) → Event
  window_update_event : (stream_id delta_window_size : ℕ) → Event

-- A stream that has been found, after a method that may also write to the output queue.
abbrev pub with_stream : Stream × PriorityQueue Frame → Session → Session
with_stream (t, q) s = record s { stream_map = put_stream t s.stream_map; output_queue = q }

-- OnStreamError
unfoldable pub on_stream_error : ℕ → Session → Session
unfolding abort_stream
on_stream_error id s = abort_stream id protocol_error s

-- A frame for the stream, and what is done if there is none.
unfoldable pub post_to_stream : Frame → ℕ → Session → Session → Session
post_to_stream f id s otherwise = elim (get_stream id s.stream_map) [
  | none ↦ otherwise
  | some t ↦ with_stream (post_input_frame f t s.output_queue) s
]

-- OnStreamFrameData, behind the check of the shared window.
unfoldable pub post_data : ℕ → Bytes → Bool → Session → Session
unfolding post_to_stream send_rst_stream_frame
post_data id bytes fin s =
    post_to_stream (data_frame id fin bytes) id s
      (if length bytes == 0 then s else send_rst_stream_frame id invalid_stream s)

-- OnStreamFrameData
unfoldable pub on_stream_frame_data : Wire → ℕ → Bytes → Bool → Session → Session
unfolding post_data send_goaway_frame stop_session
on_stream_frame_data wire id bytes fin s =
    let (accepted, w) = SharedWindow.on_receive_input_data (length bytes) s.shared_window in
    if has_shared_window s.spdy_version
    then (if accepted
        then post_data id bytes fin (record s { shared_window = w })
        else stop_session
            (send_goaway_frame wire goaway_protocol_error (record s { shared_window = w })))
    else post_data id bytes fin s

-- OnSynStream, from `Initiate a new stream` on.
unfoldable pub open_stream :
    WindowSizes
    → (id associated priority slot : ℕ) (fin unidirectional : Bool) → HeaderBlock
    → Session
    → Session
unfolding Stream.create add_stream_task
open_stream sizes id associated priority slot fin unidirectional block s =
    let task =
      Stream.create sizes s.spdy_version id associated 0 priority (pos s.initial_window_size) in
    let (task', q) =
      post_input_frame (syn_stream id associated priority slot fin unidirectional block) task
        s.output_queue in
    record s {
      last_client_stream_id = max s.last_client_stream_id id;
      stream_map = add_stream_task task' s.stream_map;
      output_queue = q;
      tasks_added = (id, priority) ∷ s.tasks_added;
    }

-- `SendGoAwayFrame` while `stream_map_lock_` is held: if the frame cannot be written, StopSession
-- takes the lock again, and the thread never returns (`none`).
unfoldable pub send_goaway_locked : Wire → GoAwayStatus → Session → Option Session
unfolding send_goaway_frame
send_goaway_locked wire status s =
    let after = send_goaway_frame wire status s in
    if s.already_sent_goaway
    then some s
    else elim (wire s.written (Frame.goaway s.last_client_stream_id status)) [
      | write_success ↦ some after
      | _ ↦ none
    ]

-- OnSynStream. A stream ID that does not rise is only logged.
unfoldable pub on_syn_stream :
    Wire
    → WindowSizes
    → (id associated priority slot : ℕ) (fin unidirectional : Bool) → HeaderBlock
    → Session
    → Option Session
unfolding open_stream send_goaway_locked send_goaway_frame send_rst_stream_frame
on_syn_stream wire sizes id associated priority slot fin unidirectional block s =
    if s.already_sent_goaway
    then some s
    else if is_even id
    then some (send_goaway_frame wire goaway_protocol_error s)
    else if is_stream_active id s.stream_map
    then send_goaway_locked wire goaway_protocol_error s
    else if leb_ℤ s.max_streams_per_connection
        (pos (StreamMap.num_active_client_streams s.stream_map))
    then some (send_rst_stream_frame id refused_stream s)
    else some (open_stream sizes id associated priority slot fin unidirectional block s)

-- OnRstStream: every status aborts the stream without a reply; they differ in what is logged.
unfoldable pub on_rst_stream : ℕ → RstStreamStatus → Session → Session
unfolding abort_stream_silently
on_rst_stream id status s = abort_stream_silently id s

-- OnSetting
unfoldable pub on_setting : Wire → WindowSizes → SettingsId → ℕ → Session → Session
unfolding send_goaway_frame set_initial_window_size
on_setting wire sizes max_concurrent_streams value s = record s { max_concurrent_pushes = value }
on_setting wire sizes initial_window_size value s =
    if has_stream_windows s.spdy_version
    then set_initial_window_size wire sizes value s
    else send_goaway_frame wire goaway_protocol_error s
on_setting wire sizes (other_settings id) value s = send_goaway_frame wire goaway_protocol_error s
on_setting wire sizes _ value s = s

-- OnPing
unfoldable pub on_ping : Wire → ℕ → Session → Session
unfolding send_frame
on_ping wire id s = if is_even id then s else send_frame wire (ping id) s

-- OnGoAway
unfoldable pub on_goaway : Wire → GoAwayStatus → Session → Session
unfolding send_goaway_frame
on_goaway wire (other_goaway status) s =
    send_goaway_frame wire goaway_protocol_error (record s { received_goaway = true })
on_goaway wire _ s = record s { received_goaway = true }

-- OnHeaders; the frame that is posted is a SYN_STREAM frame with FLAG_FIN, whatever `fin` says.
unfoldable pub on_headers : ℕ → Bool → HeaderBlock → Session → Session
unfolding post_to_stream send_rst_stream_frame
on_headers id fin block s =
    post_to_stream (syn_stream id 0 0 0 true false block) id s
      (send_rst_stream_frame id invalid_stream s)

-- OnWindowUpdate for stream 0, over SPDY/3.1; the delta goes on as an int32.
unfoldable pub increase_shared : Wire → WindowSizes → ℕ → Session → Session
unfolding send_goaway_frame stop_session
increase_shared wire sizes delta s =
    let (accepted, w) =
      SharedWindow.increase_output_window_size sizes.maximum (as_int32 delta) s.shared_window in
    if accepted
    then record s { shared_window = w }
    else stop_session
        (send_goaway_frame wire goaway_protocol_error (record s { shared_window = w }))

-- OnWindowUpdate
unfoldable pub on_window_update : Wire → WindowSizes → ℕ → ℕ → Session → Session
unfolding increase_shared send_goaway_frame stop_session
on_window_update wire sizes id delta s =
    if not (has_stream_windows s.spdy_version)
    then send_goaway_frame wire goaway_protocol_error s
    else if id == 0
    then (if has_shared_window s.spdy_version
        then increase_shared wire sizes delta s
        else stop_session (send_goaway_frame wire goaway_protocol_error s))
    else elim (get_stream id s.stream_map) [
      | none ↦ s
      | some t ↦ with_stream (adjust_output_window_size sizes (as_int32 delta) t s.output_queue) s
    ]

-- One callback. `none`: the connection thread blocks for ever.
unfoldable pub on_event : Wire → WindowSizes → Event → Session → Option Session
unfolding on_stream_error on_stream_frame_data on_syn_stream on_rst_stream on_setting on_ping
    on_goaway on_headers on_window_update send_goaway_frame
on_event wire sizes error s = some (send_goaway_frame wire goaway_protocol_error s)
on_event wire sizes (stream_error id) s = some (on_stream_error id s)
on_event wire sizes (stream_frame_data id bytes fin) s =
    some (on_stream_frame_data wire id bytes fin s)
on_event wire sizes (syn_stream_event id associated priority slot fin unidirectional block) s =
    on_syn_stream wire sizes id associated priority slot fin unidirectional block s
on_event wire sizes (syn_reply_event id fin block) s = some s
on_event wire sizes (rst_stream_event id status) s = some (on_rst_stream id status s)
on_event wire sizes (settings_event clear) s = some s
on_event wire sizes (setting id flags value) s = some (on_setting wire sizes id value s)
on_event wire sizes (ping_event id) s = some (on_ping wire id s)
on_event wire sizes (goaway_event last status) s = some (on_goaway wire status s)
on_event wire sizes (headers_event id fin block) s = some (on_headers id fin block s)
on_event wire sizes (push_promise id promised) s =
    some (send_goaway_frame wire goaway_protocol_error s)
on_event wire sizes (window_update_event id delta) s = some (on_window_update wire sizes id delta s)
