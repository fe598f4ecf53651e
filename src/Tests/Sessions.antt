-- ===== src/Tests/Sessions.antt =====
-- Runs of spdy_session.cc.
use mod_spdy.Common.{
  ◌%◌, ◌≤◌, ◌<◌, ◌≡◌, inl, inr, refl, pos, ◌-ℤ◌, true, false, [], ◌∷◌, none, some, arith,
  if◌then◌else◌,
}
use mod_spdy.Frame.{syn_stream, initial_window_size}
use mod_spdy.FrameQueue
use mod_spdy.PriorityQueue
use mod_spdy.PriorityQueue.{pop}
use mod_spdy.Protocol.{version_3}
use mod_spdy.Stream
use mod_spdy.Stream.{Stream, post_input_frame}
use mod_spdy.Session.StreamMap
use mod_spdy.Session.StreamMap.{get_stream, num_active_client_streams}
use mod_spdy.Session.StreamMap.Valid.{IsSorted, pushes}
use mod_spdy.Session.State.{Session, Wire, write_success, connection_closed, create}
use mod_spdy.Session.Handlers.{syn_stream_event, on_event, on_syn_stream, on_setting, on_headers}
use mod_spdy.Session.Push.{max_server_push_stream_id, start_server_push}
use mod_spdy.Session.Run
use mod_spdy.Session.Run.{Round, Loop, read_connection_closed, read_no_data, round, loop, frames}
use mod_spdy.Session.State.{adjust_windows}
use mod_spdy.Common.{ℕ}
use mod_spdy.Session.Run.Ending.{round-session_stopped}
use mod_spdy.Session.Valid.{goaways}
use mod_spdy.Session.Reach.{
  handles, Reach, starts, next, Pushes, map_lem, goaways-le-one, start_server_push-Pushes,
}
use mod_spdy.Session.Opening.{Opened, Opens, on_syn_stream-Opens}
use mod_spdy.Session.Settings.{Moves, on_setting-Moves, on_headers-fin}
use mod_spdy.Tests.Streams.{usual_sizes, usual_sizes-IsSane}

abbrev open_wire : Wire
open_wire written f = write_success

abbrev new_session : Session
new_session = record {
  spdy_version = version_3;
  max_streams_per_connection = pos 100;
  session_stopped = false;
  already_sent_goaway = false;
  last_client_stream_id = 0;
  initial_window_size = 65536;
  max_concurrent_pushes = 100;
  stream_map = record { tasks = []; num_active_push_streams = 0 };
  last_server_push_stream_id = 0;
  received_goaway = false;
  output_queue = record { queue_map = [] };
  shared_window = record {
    is_aborted = false;
    init_input_window_size = 65536;
    input_window_size = 65536;
    input_bytes_consumed = 0;
    output_window_size = pos 65536;
  };
  written = [];
  tasks_added = [];
  executor_stopped = false;
}

-- The stream that a SYN_STREAM with ID 1 opens.
abbrev stream_1 : Stream
stream_1 = record {
  spdy_version = version_3;
  stream_id = 1;
  associated_stream_id = 0;
  server_push_depth = 0;
  priority = 2;
  input_queue = record { is_aborted = false; queue = syn_stream 1 0 2 0 false false [] ∷ [] };
  is_aborted = false;
  output_window_size = pos 65536;
  input_window_size = 65536;
  input_bytes_consumed = 0;
}

abbrev one_stream : Session
one_stream = record new_session {
  last_client_stream_id = 1;
  stream_map = record { tasks = stream_1 ∷ []; num_active_push_streams = 0 };
  tasks_added = (1, 2) ∷ [];
}

opens_one :
    on_event open_wire usual_sizes (syn_stream_event 1 0 2 0 false false []) new_session
    ≡ some one_stream
unfolding on_event Stream.post_input_frame FrameQueue.insert Stream.data_frame_length
    StreamMap.is_stream_active StreamMap.find StreamMap.num_active_client_streams StreamMap.assign
    Stream.create
opens_one = refl

one_stream-Reach : Reach open_wire usual_sizes version_3 (pos 100) one_stream
unfolding create
one_stream-Reach = next starts (handles (syn_stream_event 1 0 2 0 false false []) opens_one)

map_lem_example :
    IsSorted one_stream.stream_map.tasks
    × (0 ≡ pushes one_stream.stream_map.tasks)
    × (num_active_client_streams one_stream.stream_map ≤ 100)
map_lem_example = map_lem usual_sizes-IsSane one_stream-Reach

goaways-le-one_example :
    (goaways one_stream.written ≤ (if one_stream.already_sent_goaway then 1 else 0))
    × (goaways one_stream.written ≤ 1)
    × (0 < one_stream.initial_window_size)
    × (one_stream.initial_window_size ≤ 0x7FFFFFFF)
goaways-le-one_example = goaways-le-one usual_sizes-IsSane one_stream-Reach

start_server_push-Pushes_example :
    Pushes 1 3 [] one_stream (start_server_push usual_sizes 1 1 3 [] one_stream)
    × (one_stream.last_server_push_stream_id % 2 ≡ 0)
    × (one_stream.last_server_push_stream_id ≤ max_server_push_stream_id)
start_server_push-Pushes_example =
    start_server_push-Pushes 1 1 3 [] usual_sizes-IsSane one_stream-Reach

on_syn_stream-Opens_example :
    Opens open_wire 1
      (Opened 1 0 2 0 false false [] new_session)
      new_session
      (on_syn_stream open_wire usual_sizes 1 0 2 0 false false [] new_session)
on_syn_stream-Opens_example =
    on_syn_stream-Opens open_wire usual_sizes 1 0 2 0 false false [] new_session

on_setting-Moves_example :
    (on_setting open_wire usual_sizes initial_window_size 70000 one_stream
      ≡ adjust_windows usual_sizes
          (pos 70000 -ℤ pos 65536)
          (record one_stream { initial_window_size = 70000 }))
    × ((s : Session) (id : ℕ)
        → Moves usual_sizes
            (pos 70000 -ℤ pos 65536)
            (get_stream id s.stream_map)
            (get_stream id (adjust_windows usual_sizes (pos 70000 -ℤ pos 65536) s).stream_map))
on_setting-Moves_example =
    on_setting-Moves open_wire usual_sizes 70000 one_stream refl (omega arith) (omega arith)

on_headers-fin_example :
    (on_headers 1 false [] one_stream ≡ on_headers 1 true [] one_stream)
    × (get_stream 1 (on_headers 1 false [] one_stream).stream_map
        ≡ some (record stream_1 {
          input_queue = FrameQueue.insert (syn_stream 1 0 0 0 true false []) stream_1.input_queue;
        }))
on_headers-fin_example =
    on_headers-fin 1 false [] one_stream stream_1 (unfold get_stream StreamMap.find in refl) refl

abbrev closing_round : Round
closing_round = record {
  connection_aborted = false;
  input = [];
  status = read_connection_closed;
  meanwhile = [];
  wakes = [];
  turns = [];
}

abbrev first_loop : Loop
first_loop = record { session = new_session; output_block_time = 1 }

after_closing : Loop
unfolding Run.after_read
after_closing = Run.after_read open_wire read_connection_closed first_loop

closes : round open_wire usual_sizes closing_round first_loop ≡ some after_closing
unfolding round after_closing StreamMap.is_empty PriorityQueue.is_empty
closes = refl

round-session_stopped_example :
    (after_closing.session.session_stopped ≡ true)
    × (loop open_wire usual_sizes (closing_round ∷ []) after_closing ≡ some after_closing)
round-session_stopped_example =
    round-session_stopped open_wire usual_sizes closing_round (closing_round ∷ []) first_loop
      after_closing (inr (inl refl)) closes

-- The GOAWAY for an ID in use cannot be written: the connection thread blocks for ever.
blocks :
    on_syn_stream (λ written f. connection_closed) usual_sizes 1 0 2 0 false false [] one_stream
    ≡ none
unfolding on_syn_stream StreamMap.is_stream_active StreamMap.find
blocks = refl
