-- ===== src/Session/Push.antt =====
-- StartServerPush of src/mod_spdy/common/spdy_session.cc, which stream threads call, with the results
-- of src/mod_spdy/common/spdy_server_push_interface.h.
use mod_spdy.Common.{ℕ, ◌+◌, leb, pos, true, false, [], ◌∷◌, Option, none, some, if◌then◌else◌}
use mod_spdy.Frame.{HeaderBlock, syn_stream}
use mod_spdy.Protocol.{WindowSizes}
use mod_spdy.Protocol.Spdy3
use mod_spdy.Protocol.Headers.{find, assign}
use mod_spdy.Stream
use mod_spdy.Stream.{Stream, post_input_frame, send_output_syn_stream}
use mod_spdy.Session.StreamMap.{is_stream_active, add_stream_task}
use mod_spdy.Session.State.{Session}

pub data PushStatus : Type 0 where
  push_started invalid_request_headers associated_stream_inactive cannot_push_ever_again
        too_many_concurrent_pushes push_internal_error :
      PushStatus

-- kMaxServerPushStreamId
abbrev pub max_server_push_stream_id : ℕ
max_server_push_stream_id = 0x7FFFFFFE

-- The three headers that the first SYN_STREAM needs.
unfoldable pub initial_response_headers : HeaderBlock → Option HeaderBlock
initial_response_headers block = elim (find Spdy3.host block) [
  | none ↦ none
  | some host ↦ elim (find Spdy3.path block) [
    | none ↦ none
    | some path ↦ elim (find Spdy3.scheme block) [
      | none ↦ none
      | some scheme ↦
          some (assign Spdy3.scheme scheme (assign Spdy3.path path (assign Spdy3.host host [])))
    ]
  ]
]

-- The new stream gets the request, and sends its SYN_STREAM; the executor gets its task.
unfoldable pub open_push :
    WindowSizes
    → (stream_id associated depth priority : ℕ) → HeaderBlock
    → HeaderBlock
    → Session
    → Session
unfolding Stream.create add_stream_task
open_push sizes id associated depth priority request initial s =
    let task =
      Stream.create sizes s.spdy_version id associated depth priority (pos s.initial_window_size) in
    let (task', q) =
      post_input_frame (syn_stream id associated priority 0 true false request) task
        s.output_queue in
    record s {
      stream_map = add_stream_task task' s.stream_map;
      output_queue = send_output_syn_stream initial false task' q;
      tasks_added = (id, priority) ∷ s.tasks_added;
    }

-- From the increment of `last_server_push_stream_id_` on.
unfoldable pub take_push_id :
    WindowSizes
    → (associated depth priority : ℕ) → HeaderBlock
    → HeaderBlock
    → Session
    → PushStatus × Session
unfolding open_push
take_push_id sizes associated depth priority request initial s =
    let id = s.last_server_push_stream_id + 2 in
    let s' = record s { last_server_push_stream_id = id } in
    if is_stream_active id s.stream_map
    then (push_internal_error, s')
    else (push_started, open_push sizes id associated depth priority request initial s')

-- The part under `stream_map_lock_`.
unfoldable pub try_push :
    WindowSizes
    → (associated depth priority : ℕ) → HeaderBlock
    → HeaderBlock
    → Session
    → PushStatus × Session
unfolding take_push_id
try_push sizes associated depth priority request initial s =
    if s.received_goaway
    then (cannot_push_ever_again, s)
    else if is_stream_active associated s.stream_map
    then (if leb s.max_concurrent_pushes s.stream_map.num_active_push_streams
        then (too_many_concurrent_pushes, s)
        else if leb max_server_push_stream_id s.last_server_push_stream_id
        then (cannot_push_ever_again, s)
        else take_push_id sizes associated depth priority request initial s)
    else (associated_stream_inactive, s)

-- StartServerPush
unfoldable pub start_server_push :
    WindowSizes → (associated depth priority : ℕ) → HeaderBlock → Session → PushStatus × Session
unfolding try_push initial_response_headers
start_server_push sizes associated depth priority request s =
    elim (initial_response_headers request) [
      | none ↦ (invalid_request_headers, s)
      | some initial ↦ try_push sizes associated depth priority request initial s
    ]
