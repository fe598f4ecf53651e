-- ===== src/Session/Run.antt =====
-- The main loop, SpdySession::Run of src/mod_spdy/common/spdy_session.cc.
-- What the loop meets in one round is given as a `Round`; the rounds to come are a list. A round may
-- also leave the connection thread blocked for ever or the process dead: then there is no next state.
pub mod Draining
pub mod Backoff
pub mod Ending
use mod_spdy.Common.{
  ℕ, zero, suc, ◌+◌, ◌*◌, min, pos, pos_part, ℤ, ltb, Bool, true, false, not, ◌&&◌, ◌||◌, List, [],
  ◌∷◌, length, Option, none, some, ◌>>=◌, if◌then◌else◌,
}
use mod_spdy.Frame.{Frame, settings, max_concurrent_streams, goaway_ok, goaway_internal_error}
use mod_spdy.PriorityQueue
use mod_spdy.PriorityQueue.{PriorityQueue, Blocking, sleeps, timed_out, popped, pop, blocking_pop}
use mod_spdy.Protocol.{WindowSizes}
use mod_spdy.Session.StreamMap
use mod_spdy.Session.State.{Session, Wire, stop_session, send_frame, send_goaway_frame}
use mod_spdy.Session.Handlers.{Event, on_event}
use mod_spdy.Session.Work.{Work, work_all}

-- The results of ProcessAvailableInput, of src/mod_spdy/common/spdy_session_io.h.
pub data ReadStatus : Type 0 where
  read_success read_no_data read_connection_closed read_error : ReadStatus

-- What the connection and the other threads do in one round: whether the connection is aborted, the
-- callbacks of the framer while input is read, the status of the read, the other threads' steps up to
-- the output, the returns of TimedWait in BlockingPop, which has millisecond timeouts, and the other
-- threads' steps in each turn of the inner loop over the output.
pub record Round : Type 0 where
  pub connection_aborted : Bool
  pub input : List Event
  pub status : ReadStatus
  pub meanwhile : List Work
  pub wakes : List (ℤ × List (ℤ × Frame))
  pub turns : List (List Work)

-- The session with the loop's variable, in milliseconds.
pub record Loop : Type 0 where
  pub session : Session
  pub output_block_time : ℕ

abbrev pub init_output_block_time : ℕ
init_output_block_time = 1

abbrev pub max_output_block_time : ℕ
max_output_block_time = 30

unfoldable pub handle_all : Wire → WindowSizes → List Event → Session → Option Session
handle_all wire sizes [] s = some s
handle_all wire sizes (e ∷ es) s = on_event wire sizes e s >>= handle_all wire sizes es

-- SendSettingsFrame; the value goes into the frame as an uint32.
unfoldable pub send_settings_frame : Wire → Session → Session
send_settings_frame wire s =
    send_frame wire (settings max_concurrent_streams (pos_part s.max_streams_per_connection)) s

-- What follows ProcessAvailableInput.
unfoldable pub after_read : Wire → ReadStatus → Loop → Loop
unfolding send_goaway_frame stop_session
after_read wire read_success l = record l { output_block_time = init_output_block_time }
after_read wire read_connection_closed l = record l {
  session = stop_session (send_goaway_frame wire goaway_ok l.session);
}
after_read wire read_error l = record l {
  session = stop_session (send_goaway_frame wire goaway_internal_error l.session);
}
after_read wire read_no_data l = l

-- `do SendFrame(frame); while (!session_stopped_ && output_queue_.Pop(&frame))`, when the other threads
-- are quiet, with as much fuel as there are frames.
unfoldable pub drain_rest : Wire → ℕ → Frame → Session → Session
drain_rest wire zero f s = send_frame wire f s
drain_rest wire (suc fuel) f s =
    let s' = send_frame wire f s in
    elim (pop s'.output_queue) [
      | none ↦ s'
      | some (g, q) ↦
          let rest = drain_rest wire fuel g (record s' { output_queue = q }) in
          if s'.session_stopped then s' else rest
    ]

-- The number of frames in a queue.
unfoldable pub frames : List (ℤ × List Frame) → ℕ
frames [] = 0
frames ((p, fs) ∷ m) = length fs + frames m

-- The loop's test after a turn: none if the thread's process has died.
unfoldable pub pop_next : (go : Frame → Session → Option Session) → Session → Option Session
pop_next go s = if s.session_stopped then some s else elim (pop s.output_queue) [
  | none ↦ some s
  | some (f, q) ↦ go f (record s { output_queue = q })
]

-- The loop, where other threads take steps after SendFrame and before Pop: the list has those of each
-- turn, until all of them are quiet.
unfoldable pub drain :
    Wire → WindowSizes → (turns : List (List Work)) → Frame → Session → Option Session
unfolding drain_rest frames pop_next
drain wire sizes [] f s = some (drain_rest wire (frames s.output_queue.queue_map) f s)
drain wire sizes (ks ∷ turns) f s =
    work_all sizes ks (send_frame wire f s) >>= pop_next (drain wire sizes turns)

-- Step 2 of a round, once a frame has been popped or not.
unfoldable pub send_output :
    Wire → WindowSizes → (turns : List (List Work)) → Bool → Loop → Blocking Frame → Option Loop
unfolding stop_session
send_output wire sizes turns no_active_streams l sleeps = none
send_output wire sizes turns no_active_streams l (popped f q) =
    drain wire sizes turns f (record l.session { output_queue = q }) >>= λ s.
    some (record { session = s; output_block_time = init_output_block_time })
send_output wire sizes turns no_active_streams l timed_out = some (
    if l.session.already_sent_goaway && no_active_streams
    then record l { session = stop_session l.session }
    else record l { output_block_time = min max_output_block_time (l.output_block_time * 2) })

-- Step 2: without active streams the loop does not wait for output.
unfoldable pub output_step : Wire → WindowSizes → Round → Loop → Option Loop
unfolding send_output
output_step wire sizes r l =
    let idle = StreamMap.is_empty l.session.stream_map in
    let time = if idle then pos 0 else pos l.output_block_time in
    let next =
      send_output wire sizes r.turns idle l (blocking_pop time r.wakes l.session.output_queue) in
    if l.session.session_stopped then some l else next

-- Step 1: the input, then the other threads, then step 2.
unfoldable pub input_step : Wire → WindowSizes → Round → Loop → Option Loop
unfolding after_read output_step handle_all work_all
input_step wire sizes r l = handle_all wire sizes r.input l.session >>= λ s.
    let l' = after_read wire r.status (record l { session = s }) in
    work_all sizes r.meanwhile l'.session >>= λ s'.
    output_step wire sizes r (record l' { session = s' })

-- Should the loop shut down, as there is no output and can be none?
unfoldable pub is_done : Session → Bool
is_done s =
    StreamMap.is_empty s.stream_map
    && PriorityQueue.is_empty s.output_queue
    && s.already_sent_goaway

-- The body of the loop.
unfoldable pub round : Wire → WindowSizes → Round → Loop → Option Loop
unfolding input_step is_done stop_session
round wire sizes r l =
    let next = input_step wire sizes r l in
    if r.connection_aborted || is_done l.session
    then some (record l { session = stop_session l.session })
    else next

-- The loop over the rounds that come; it is left when the session is stopped.
unfoldable pub loop : Wire → WindowSizes → List Round → Loop → Option Loop
unfolding round
loop wire sizes [] l = some l
loop wire sizes (r ∷ rs) l =
    let next = round wire sizes r l >>= loop wire sizes rs in
    if l.session.session_stopped then some l else next

-- Run
unfoldable pub run : Wire → WindowSizes → List Round → Session → Option Loop
unfolding loop send_settings_frame
run wire sizes rs s =
    loop wire sizes rs
      (record { session = send_settings_frame wire s; output_block_time = init_output_block_time })
