-- ===== src/Session/Valid.antt =====
-- The invariant of a session of spdy_session.cc, and the methods that all its handlers use.
pub mod Streams
pub mod Events
pub mod Works
use mod_spdy.Common.{pos, ℤ, ◌-ℤ◌}
use mod_spdy.Common.{
  ℕ, ◌+◌, ◌%◌, ◌≤◌, ◌<◌, ltb, ◌==◌, ◌||◌, ◌≡◌, ◌⊎◌, inl, inr, refl, ℤ, pos, pos_part, Bool, true,
  false, List, [], ◌∷◌, Option, none, some, arith, if◌then◌else◌, Option-cases, Bool-cases,
}
use mod_spdy.Frame.{
  Frame, syn_stream, syn_reply, rst_stream, settings, ping, goaway, headers, window_update,
  data_frame, GoAwayStatus, goaway_protocol_error, RstStreamStatus,
}
use mod_spdy.PriorityQueue
use mod_spdy.PriorityQueue.{PriorityQueue}
use mod_spdy.Protocol.{WindowSizes, IsSane, SpdyVersion, has_stream_windows}
use mod_spdy.SharedWindow.{SharedWindow}
use mod_spdy.Stream.{Stream, abort_silently}
use mod_spdy.Session.StreamMap.{StreamMap, get_stream}
use mod_spdy.Session.StreamMap.Valid
use mod_spdy.Session.StreamMap.InPlace.{
  put_stream-IsValid, abort_all_silently-IsValid, adjust_all-IsValid,
}
use mod_spdy.Session.State.{
  Session, Wire, create, stop_session, send_frame, send_goaway_frame, send_rst_stream_frame,
  WriteResult, compression_failed, connection_closed, write_success, after_write,
  abort_stream_silently, abort_stream, set_initial_window_size, adjust_windows,
}
use mod_spdy.Session.Push.{max_server_push_stream_id}

abbrev pub is_goaway : Frame → Bool
is_goaway (goaway last status) = true
is_goaway _ = false

abbrev pub goaways : List Frame → ℕ
goaways [] = 0
goaways (f ∷ fs) = (if is_goaway f then 1 else 0) + goaways fs

abbrev pub limit_of : Session → ℕ
limit_of s = pos_part s.max_streams_per_connection

pub record IsValid (sizes : WindowSizes) (s : Session) : Type 0 where
  pub map : Valid.IsValid s.last_server_push_stream_id (limit_of s) s.stream_map
  pub even : s.last_server_push_stream_id % 2 ≡ 0
  pub ids_fit : s.last_server_push_stream_id ≤ max_server_push_stream_id
  pub window_pos : 0 < s.initial_window_size
  pub window_max : s.initial_window_size ≤ sizes.maximum
  pub one_goaway : goaways s.written ≤ (if s.already_sent_goaway then 1 else 0)

module _ {sizes : WindowSizes} where
  pub create-IsValid :
      (version : SpdyVersion) (max_streams : ℤ)
      → IsSane sizes
      → IsValid sizes (create sizes version max_streams)
  unfolding create
  create-IsValid version max_streams h = record {
    map = record { sorted = tt; counted = refl; below = tt; few = omega arith };
    even = refl;
    ids_fit = omega arith;
    window_pos = h.positive;
    window_max = h.allowed;
    one_goaway = omega arith;
  }

  pub stop_session-IsValid : (s : Session) → IsValid sizes s → IsValid sizes (stop_session s)
  unfolding stop_session
  stop_session-IsValid s v = record {
    map = abort_all_silently-IsValid s.stream_map v.map;
    even = v.even;
    ids_fit = v.ids_fit;
    window_pos = v.window_pos;
    window_max = v.window_max;
    one_goaway = v.one_goaway;
  }

  pub if-IsValid :
      (b : Bool) {x y : Session}
      → (b ≡ true → IsValid sizes x)
      → (b ≡ false → IsValid sizes y)
      → IsValid sizes (if b then x else y)
  if-IsValid true vx vy = vx refl
  if-IsValid false vx vy = vy refl

  write-IsValid :
      (f : Frame) (s : Session)
      → (is_goaway f ≡ false) ⊎ ((goaways s.written ≡ 0) × (s.already_sent_goaway ≡ true))
      → IsValid sizes s
      → IsValid sizes (record s { written = f ∷ s.written })
  write-IsValid f s h v = record {
    map = v.map;
    even = v.even;
    ids_fit = v.ids_fit;
    window_pos = v.window_pos;
    window_max = v.window_max;
    one_goaway = ground (arith, v.one_goaway);
  }

  after_write-IsValid :
      (f : Frame) (r : WriteResult) (s : Session)
      → (is_goaway f ≡ false) ⊎ ((goaways s.written ≡ 0) × (s.already_sent_goaway ≡ true))
      → IsValid sizes s
      → IsValid sizes (after_write f r s)
  unfolding after_write
  after_write-IsValid f compression_failed s h v = stop_session-IsValid s v
  after_write-IsValid f connection_closed s h v = stop_session-IsValid _ (write-IsValid f s h v)
  after_write-IsValid f write_success s h v = write-IsValid f s h v

  pub send_frame-IsValid :
      (wire : Wire) (f : Frame) (s : Session)
      → is_goaway f ≡ false
      → IsValid sizes s
      → IsValid sizes (send_frame wire f s)
  unfolding send_frame
  send_frame-IsValid wire f s h v = after_write-IsValid f (wire s.written f) s (inl h) v

  pub send_goaway_frame-IsValid :
      (wire : Wire) (status : GoAwayStatus) (s : Session)
      → IsValid sizes s
      → IsValid sizes (send_goaway_frame wire status s)
  unfolding send_goaway_frame send_frame
  send_goaway_frame-IsValid wire status s v =
      if-IsValid s.already_sent_goaway (λ sent. v)
        λ fresh.
          let none_sent : goaways s.written ≡ 0 = ground (arith, v.one_goaway) in
          let s' = record s { already_sent_goaway = true } in
          after_write-IsValid (goaway s.last_client_stream_id status)
            (wire s.written (goaway s.last_client_stream_id status)) s' (inr (none_sent, refl))
            (record {
              map = v.map;
              even = v.even;
              ids_fit = v.ids_fit;
              window_pos = v.window_pos;
              window_max = v.window_max;
              one_goaway = omega arith;
            })

  -- The fields that the invariant does not read may change at will.
  pub queues-IsValid :
      (m : StreamMap) (q : PriorityQueue Frame) (w : SharedWindow) (s : Session)
      → Valid.IsValid s.last_server_push_stream_id (limit_of s) m
      → IsValid sizes s
      → IsValid sizes (record s { stream_map = m; output_queue = q; shared_window = w })
  queues-IsValid m q w s h v = record {
    map = h;
    even = v.even;
    ids_fit = v.ids_fit;
    window_pos = v.window_pos;
    window_max = v.window_max;
    one_goaway = v.one_goaway;
  }

  pub abort_stream_silently-IsValid :
      (id : ℕ) (s : Session) → IsValid sizes s → IsValid sizes (abort_stream_silently id s)
  unfolding abort_stream_silently
  abort_stream_silently-IsValid id s v = elim (Option-cases (get_stream id s.stream_map)) [
    | inl gone ↦ rw (gone, abort_stream_silently) v
    | inr (t, found) ↦
        rw (found, abort_stream_silently)
          (queues-IsValid _ s.output_queue s.shared_window s
            (put_stream-IsValid (abort_silently t) s.stream_map v.map) v)
  ]

  pub resize-IsValid :
      (size : ℕ) (s : Session)
      → 0 < size
      → size ≤ sizes.maximum
      → IsValid sizes s
      → IsValid sizes (record s { initial_window_size = size })
  resize-IsValid size s h k v = record {
    map = v.map;
    even = v.even;
    ids_fit = v.ids_fit;
    window_pos = h;
    window_max = k;
    one_goaway = v.one_goaway;
  }

  pub adjust_windows-IsValid :
      (delta : ℤ) (s : Session) → IsValid sizes s → IsValid sizes (adjust_windows sizes delta s)
  unfolding adjust_windows
  adjust_windows-IsValid delta s v = record {
    map = adjust_all-IsValid sizes _ s.stream_map s.output_queue v.map;
    even = v.even;
    ids_fit = v.ids_fit;
    window_pos = v.window_pos;
    window_max = v.window_max;
    one_goaway = v.one_goaway;
  }

  pub set_initial_window_size-IsValid :
      (wire : Wire) (size : ℕ) (s : Session)
      → IsValid sizes s
      → IsValid sizes (set_initial_window_size wire sizes size s)
  unfolding set_initial_window_size
  set_initial_window_size-IsValid wire size s v =
      if-IsValid (has_stream_windows s.spdy_version)
        (λ new.
          if-IsValid (size == 0 || ltb sizes.maximum size)
            (λ bad. send_goaway_frame-IsValid wire goaway_protocol_error s v)
            (λ good.
              adjust_windows-IsValid (pos size -ℤ pos s.initial_window_size)
                (record s { initial_window_size = size })
                (resize-IsValid size s (ground arith) (ground arith) v)))
        (λ old. v)
