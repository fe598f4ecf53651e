-- ===== src/Session/Work.antt =====
-- What the stream threads and the executor do to a session between two steps of the connection
-- thread: src/mod_spdy/common/spdy_session.cc and src/mod_spdy/common/spdy_stream.cc.
use mod_spdy.Common.{ℕ, ◌+◌, Bool, List, [], ◌∷◌, Option, none, some, ◌>>=◌}
use mod_spdy.Frame.{HeaderBlock, Frame}
use mod_spdy.PriorityQueue.{PriorityQueue}
use mod_spdy.Protocol.{WindowSizes}
use mod_spdy.Stream.{
  Stream, on_input_data_consumed, send_output_syn_reply, send_output_headers, send_output_frame,
  abort_with_rst_stream,
}
use mod_spdy.Frame.{RstStreamStatus}
use mod_spdy.Stream.Sender.{Sender, Progress}
use mod_spdy.Stream.Sender
use mod_spdy.Session.StreamMap.{get_stream, put_stream, remove_stream_task}
use mod_spdy.Session.State.{Session}
use mod_spdy.Session.Push.{start_server_push}

-- One step of another thread, on the stream with the ID.
pub data Work : Type 0 where
  ends : (id : ℕ) → Work  -- the StreamTaskWrapper is destroyed
  consumes : (id size : ℕ) → Work
  replies : (id : ℕ) → HeaderBlock → (fin : Bool) → Work
  adds_headers : (id : ℕ) → HeaderBlock → (fin : Bool) → Work
  sends_data : (id : ℕ) (fin : Bool) → Sender → Work
  resets : (id : ℕ) → RstStreamStatus → Work
  pushes : (id priority : ℕ) → HeaderBlock → Work

abbrev post : Option Frame → Stream → PriorityQueue Frame → PriorityQueue Frame
post none t q = q
post (some f) t q = send_output_frame f t q

-- A step of SendOutputDataFrame, with its stream, the shared window and the queue put back.
unfoldable pub sender_step : Bool → Sender → Stream → Session → Session
sender_step fin c t s =
    let p = Sender.step fin c t s.shared_window in
    record s {
      stream_map = put_stream p.stream s.stream_map;
      shared_window = p.window;
      output_queue = post p.sent t s.output_queue;
    }

-- A stream's method that may abort the process by a CHECK.
unfoldable pub consume : WindowSizes → ℕ → Stream → Session → Option Session
consume sizes size t s = elim (on_input_data_consumed sizes size t s.output_queue s.shared_window) [
  | none ↦ none
  | some (t', q, w) ↦
      some
        (record s { stream_map = put_stream t' s.stream_map; output_queue = q; shared_window = w })
]

unfoldable pub reset : RstStreamStatus → Stream → Session → Session
reset status t s =
    let (t', q) = abort_with_rst_stream status t s.output_queue in
    record s { stream_map = put_stream t' s.stream_map; output_queue = q }

-- The step on the stream that has been found.
unfoldable pub work_on : WindowSizes → Work → Stream → Session → Option Session
unfolding sender_step consume reset
work_on sizes (ends id) t s = some (record s { stream_map = remove_stream_task t s.stream_map })
work_on sizes (consumes id size) t s = consume sizes size t s
work_on sizes (replies id block fin) t s =
    some (record s { output_queue = send_output_syn_reply block fin t s.output_queue })
work_on sizes (adds_headers id block fin) t s =
    some (record s { output_queue = send_output_headers block fin t s.output_queue })
work_on sizes (sends_data id fin c) t s = some (sender_step fin c t s)
work_on sizes (resets id status) t s = some (reset status t s)
work_on sizes (pushes id priority block) t s =
    some (start_server_push sizes t.stream_id (t.server_push_depth + 1) priority block s).1

abbrev pub stream_of : Work → ℕ
stream_of (ends id) = id
stream_of (consumes id size) = id
stream_of (replies id block fin) = id
stream_of (adds_headers id block fin) = id
stream_of (sends_data id fin c) = id
stream_of (resets id status) = id
stream_of (pushes id priority block) = id

-- A thread works on a stream of the map; `none`: a CHECK fails and the process ends.
unfoldable pub work : WindowSizes → Work → Session → Option Session
unfolding work_on
work sizes k s = elim (get_stream (stream_of k) s.stream_map) [
  | none ↦ some s
  | some t ↦ work_on sizes k t s
]

unfoldable pub work_all : WindowSizes → List Work → Session → Option Session
work_all sizes [] s = some s
work_all sizes (k ∷ ks) s = work sizes k s >>= work_all sizes ks
