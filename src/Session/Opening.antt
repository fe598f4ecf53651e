-- ===== src/Session/Opening.antt =====
-- OnSynStream and OnHeaders of spdy_session.cc, on every branch.
use mod_spdy.Common.{
  ℕ, ◌==◌, if◌then◌else◌, refl, ℤ, List, Bool-cases, inl, inr, [], max, ◌≡◌, ◌≢◌, ◌∙◌, ◌⊎◌, pos,
  leb_ℤ, ◌≤ℤ◌, Bool, true, false, ◌∷◌, Option, none, some, arith,
}
use mod_spdy.Frame.{HeaderBlock, Frame, syn_stream, goaway, goaway_protocol_error, refused_stream}
use mod_spdy.Protocol.{WindowSizes, SpdyVersion, has_stream_windows}
use mod_spdy.Stream
use mod_spdy.FrameQueue
use mod_spdy.PriorityQueue.{PriorityQueue}
use mod_spdy.Stream.{Stream, is_even, post_input_frame, enqueue_input, data_frame_length}
use mod_spdy.Session.StreamMap.{
  StreamMap, find, assign, get_stream, add_stream_task, is_stream_active, num_active_client_streams,
}
use mod_spdy.Session.State.{Session, Wire, write_success, send_goaway_frame, send_rst_stream_frame}
use mod_spdy.Session.Handlers.{on_syn_stream, open_stream, send_goaway_locked}

-- May the client open a stream with the ID?
abbrev pub MayOpen : ℕ → Session → Type 0
MayOpen id s =
    (s.already_sent_goaway ≡ false)
    × (is_even id ≡ false)
    × (is_stream_active id s.stream_map ≡ false)
    × (leb_ℤ s.max_streams_per_connection (pos (num_active_client_streams s.stream_map)) ≡ false)

-- The map has one more stream, with its SYN_STREAM to be read; its task goes to the executor.
unfoldable pub Opened :
    (id associated priority slot : ℕ) (fin unidirectional : Bool)
    → HeaderBlock
    → Session
    → Session
    → Type 0
Opened id associated priority slot fin unidirectional block s s' =
    ((t : Stream) × (get_stream id s'.stream_map ≡ some t)
      × (t.stream_id ≡ id)
      × (t.priority ≡ priority)
      × (t.is_aborted ≡ false)
      × (t.output_window_size ≡ pos s.initial_window_size)
      × (t.input_queue.queue
          ≡ syn_stream id associated priority slot fin unidirectional block ∷ []))
    × ((j : ℕ) → j ≢ id → get_stream j s'.stream_map ≡ get_stream j s.stream_map)
    × (s'.last_client_stream_id ≡ max s.last_client_stream_id id)
    × (s'.tasks_added ≡ (id, priority) ∷ s.tasks_added)
    × (s'.written ≡ s.written)
    × (s'.output_queue ≡ s.output_queue)

-- What a SYN_STREAM does, by conditions of which exactly one holds: nothing after a GOAWAY; a GOAWAY for
-- an even ID or one in use, where the thread may block for ever; a RST_STREAM if there are too many
-- streams; and else a stream opens.
abbrev pub Opens : Wire → (id : ℕ) → (opened : Session → Type 0) → Session → Option Session → Type 0
Opens wire id opened s none =
    (s.already_sent_goaway ≡ false)
    × (is_even id ≡ false)
    × (is_stream_active id s.stream_map ≡ true)
    × (wire s.written (goaway s.last_client_stream_id goaway_protocol_error) ≢ write_success)
Opens wire id opened s (some s') =
    ((s.already_sent_goaway ≡ true) × (s' ≡ s))
    ⊎ ((s.already_sent_goaway ≡ false)
        × (is_even id ≡ true)
        × (s' ≡ send_goaway_frame wire goaway_protocol_error s))
    ⊎ ((s.already_sent_goaway ≡ false)
        × (is_even id ≡ false)
        × (is_stream_active id s.stream_map ≡ true)
        × (wire s.written (goaway s.last_client_stream_id goaway_protocol_error) ≡ write_success)
        × (s' ≡ send_goaway_frame wire goaway_protocol_error s))
    ⊎ ((s.already_sent_goaway ≡ false)
        × (is_even id ≡ false)
        × (is_stream_active id s.stream_map ≡ false)
        × (s.max_streams_per_connection ≤ℤ pos (num_active_client_streams s.stream_map))
        × (s' ≡ send_rst_stream_frame id refused_stream s))
    ⊎ (MayOpen id s × opened s')

find-assign :
    (j : ℕ) (t : Stream) (ts : List Stream)
    → find t.stream_id ts ≡ none
    → find j (assign t ts) ≡ (if t.stream_id == j then some t else find j ts)
unfolding find assign
find-assign j t [] e = refl
find-assign j t (u ∷ ts) e = ground (arith, find-assign j t ts)

find-inactive : (id : ℕ) (m : StreamMap) → is_stream_active id m ≡ false → find id m.tasks ≡ none
unfolding is_stream_active
find-inactive id m h = ground arith

abbrev fresh : WindowSizes → SpdyVersion → (id associated priority : ℕ) → ℤ → Frame → Stream
fresh sizes version id associated priority window f =
    record (Stream.create sizes version id associated 0 priority window) {
      input_queue = record { is_aborted = false; queue = f ∷ [] };
    }

post_input_frame-create :
    (sizes : WindowSizes) (version : SpdyVersion) (id associated priority slot : ℕ) (window : ℤ)
    (fin unidirectional : Bool) (block : HeaderBlock) (q : PriorityQueue Frame)
    → (let f = syn_stream id associated priority slot fin unidirectional block in
        post_input_frame f (Stream.create sizes version id associated 0 priority window) q
        ≡ (fresh sizes version id associated priority window f, q))
unfolding post_input_frame Stream.create data_frame_length enqueue_input FrameQueue.insert
    FrameQueue.empty
post_input_frame-create sizes version id associated priority slot window fin unidirectional block
      q =
    elim (Bool-cases (has_stream_windows version)) [
      | inl windows ↦ rw windows refl
      | inr unlimited ↦ rw unlimited refl
    ]

add_stream_task-find :
    (j : ℕ) (t : Stream) (m : StreamMap)
    → find t.stream_id m.tasks ≡ none
    → get_stream j (add_stream_task t m) ≡ (if t.stream_id == j then some t else get_stream j m)
unfolding add_stream_task get_stream
add_stream_task-find j t m h = find-assign j t m.tasks h

at_id : (id : ℕ) (x y : Option Stream) → (if id == id then x else y) ≡ x
at_id id x y = ground arith

beside_id : (id j : ℕ) (x y : Option Stream) → j ≢ id → (if id == j then x else y) ≡ y
beside_id id j x y ne = ground arith

open_stream-Opened :
    (sizes : WindowSizes) (id associated priority slot : ℕ) (fin unidirectional : Bool)
    (block : HeaderBlock) (s : Session)
    → is_stream_active id s.stream_map ≡ false
    → Opened id associated priority slot fin unidirectional block s
        (open_stream sizes id associated priority slot fin unidirectional block s)
unfolding Opened open_stream Stream.create
open_stream-Opened sizes id associated priority slot fin unidirectional block s h =
    let f = syn_stream id associated priority slot fin unidirectional block in
    let window = pos s.initial_window_size in
    let t = fresh sizes s.spdy_version id associated priority window f in
    let found : (j : ℕ)
        → get_stream j (add_stream_task t s.stream_map)
          ≡ (if id == j then some t else get_stream j s.stream_map) =
      λ j. add_stream_task-find j t s.stream_map (find-inactive id s.stream_map h) in
    rw
      (post_input_frame-create sizes s.spdy_version id associated priority slot window fin
        unidirectional block s.output_queue)
      (
        (
          t,
          found id ∙ at_id id (some t) (get_stream id s.stream_map),
          refl,
          refl,
          refl,
          refl,
          refl,
        ),
        (λ j ne. found j ∙ beside_id id j (some t) (get_stream j s.stream_map) ne),
        refl,
        refl,
        refl,
        refl,
      )

-- OnSynStream for every session, by conditions of which exactly one holds. After a GOAWAY it does nothing.
-- Else for an even ID, and for an ID in use, it sends a GOAWAY, and blocks for ever if the ID is in use and
-- the GOAWAY cannot be written. Else it refuses the stream by a RST_STREAM if the client has as many
-- streams as the limit or more. Else the stream map gets one more stream, whose input is the SYN_STREAM,
-- the other streams stay as they are, and the executor gets the stream's task.
pub on_syn_stream-Opens :
    (wire : Wire) (sizes : WindowSizes) (id associated priority slot : ℕ)
    (fin unidirectional : Bool) (block : HeaderBlock) (s : Session)
    → Opens wire id
        (Opened id associated priority slot fin unidirectional block s)
        s
        (on_syn_stream wire sizes id associated priority slot fin unidirectional block s)
unfolding on_syn_stream send_goaway_locked
on_syn_stream-Opens wire sizes id associated priority slot fin unidirectional block s =
    ground (arith, open_stream-Opened sizes id associated priority slot fin unidirectional block s)
