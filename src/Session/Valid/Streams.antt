-- ===== src/Session/Valid/Streams.antt =====
-- The callbacks of spdy_session.cc that open streams and pass frames on to them keep the invariant.
use mod_spdy.Common.{
  ℕ, ◌<◌, ◌==◌, ◌≡◌, inl, inr, refl, pos, leb_ℤ, length, Bool, true, false, Option, none, some,
  arith, if◌then◌else◌, Option-cases,
}
use mod_spdy.Frame.{
  Bytes, HeaderBlock, Frame, syn_stream, data_frame, GoAwayStatus, goaway_protocol_error,
  RstStreamStatus, invalid_stream, refused_stream,
}
use mod_spdy.Protocol.{WindowSizes, has_shared_window}
use mod_spdy.SharedWindow
use mod_spdy.Stream
use mod_spdy.Stream.{
  Stream, is_even, is_server_push, post_input_frame, adjust_output_window_size, abort_silently,
  abort_with_rst_stream,
}
use mod_spdy.Session.StreamMap.{get_stream, is_stream_active, num_active_client_streams}
use mod_spdy.Session.StreamMap.InPlace.{put_stream-IsValid, post_input_frame-stream_id}
use mod_spdy.Session.StreamMap.Adding.{add_stream_task-IsValid}
use mod_spdy.Session.State.{
  Session, Wire, WriteResult, compression_failed, connection_closed, write_success,
  send_rst_stream_frame,
}
use mod_spdy.Session.Handlers.{
  post_to_stream, post_data, on_stream_frame_data, open_stream, send_goaway_locked, on_syn_stream,
}
use mod_spdy.Session.Valid.{
  IsValid, if-IsValid, limit_of, stop_session-IsValid, send_goaway_frame-IsValid, queues-IsValid,
}

-- Each result of a handler keeps the invariant, if there is one.
pub data Keeps (sizes : WindowSizes) : Option Session → Type 0 where
  ends : Keeps sizes none
  keeps : {s : Session} → IsValid sizes s → Keeps sizes (some s)

module _ {sizes : WindowSizes} where
  if-Keeps :
      (b : Bool) {x y : Option Session}
      → (b ≡ true → Keeps sizes x)
      → (b ≡ false → Keeps sizes y)
      → Keeps sizes (if b then x else y)
  if-Keeps true vx vy = vx refl
  if-Keeps false vx vy = vy refl

  pub send_rst_stream_frame-IsValid :
      (id : ℕ) (status : RstStreamStatus) (s : Session)
      → IsValid sizes s
      → IsValid sizes (send_rst_stream_frame id status s)
  unfolding send_rst_stream_frame
  send_rst_stream_frame-IsValid id status s v =
      queues-IsValid s.stream_map _ s.shared_window s v.map v

  pub post_to_stream-IsValid :
      (f : Frame) (id : ℕ) (s s' : Session)
      → IsValid sizes s
      → IsValid sizes s'
      → IsValid sizes (post_to_stream f id s s')
  unfolding post_to_stream
  post_to_stream-IsValid f id s s' v v' = elim (Option-cases (get_stream id s.stream_map)) [
    | inl gone ↦ rw (gone, post_to_stream) v'
    | inr (t, found) ↦
        rw (found, post_to_stream)
          (queues-IsValid _ _ s.shared_window s
            (put_stream-IsValid (post_input_frame f t s.output_queue).0 s.stream_map v.map) v)
  ]

  post_data-IsValid :
      (id : ℕ) (bytes : Bytes) (fin : Bool) (s : Session)
      → IsValid sizes s
      → IsValid sizes (post_data id bytes fin s)
  unfolding post_data
  post_data-IsValid id bytes fin s v = post_to_stream-IsValid (data_frame id fin bytes) id s _ v (
      if-IsValid (length bytes == 0) (λ _. v)
        (λ _. send_rst_stream_frame-IsValid id invalid_stream s v))

  pub on_stream_frame_data-IsValid :
      (wire : Wire) (id : ℕ) (bytes : Bytes) (fin : Bool) (s : Session)
      → IsValid sizes s
      → IsValid sizes (on_stream_frame_data wire id bytes fin s)
  unfolding on_stream_frame_data
  on_stream_frame_data-IsValid wire id bytes fin s v =
      let w = (SharedWindow.on_receive_input_data (length bytes) s.shared_window).1 in
      let v' = queues-IsValid s.stream_map s.output_queue w s v.map v in
      if-IsValid (has_shared_window s.spdy_version)
        (λ shared.
          if-IsValid (SharedWindow.on_receive_input_data (length bytes) s.shared_window).0
            (λ accepted. post_data-IsValid id bytes fin _ v')
            (λ refused.
              stop_session-IsValid _ (send_goaway_frame-IsValid wire goaway_protocol_error _ v')))
        (λ old. post_data-IsValid id bytes fin s v)

  open_stream-IsValid :
      (id associated priority slot : ℕ) (fin unidirectional : Bool) (block : HeaderBlock)
      (s : Session)
      → is_even id ≡ false
      → is_stream_active id s.stream_map ≡ false
      → num_active_client_streams s.stream_map < limit_of s
      → IsValid sizes s
      → IsValid sizes (open_stream sizes id associated priority slot fin unidirectional block s)
  unfolding open_stream Stream.create
  open_stream-IsValid id associated priority slot fin unidirectional block s odd fresh room v =
      let f = syn_stream id associated priority slot fin unidirectional block in
      let task =
        Stream.create sizes s.spdy_version id associated 0 priority (pos s.initial_window_size) in
      let same = post_input_frame-stream_id f task s.output_queue in
      record {
        map =
            add_stream_task-IsValid (post_input_frame f task s.output_queue).0 s.stream_map
              (rw same fresh) (inl (rw same odd)) (inr room) v.map;
        even = v.even;
        ids_fit = v.ids_fit;
        window_pos = v.window_pos;
        window_max = v.window_max;
        one_goaway = v.one_goaway;
      }

  send_goaway_locked-Keeps :
      (wire : Wire) (status : GoAwayStatus) (s : Session)
      → IsValid sizes s
      → Keeps sizes (send_goaway_locked wire status s)
  unfolding send_goaway_locked
  send_goaway_locked-Keeps wire status s v =
      if-Keeps s.already_sent_goaway (λ _. keeps v)
        λ _.
          on_result (wire s.written (Frame.goaway s.last_client_stream_id status))
            (send_goaway_frame-IsValid wire status s v)
    where
      on_result :
          (r : WriteResult) {t : Session}
          → IsValid sizes t
          → Keeps sizes (elim r [ write_success ↦ some t | _ ↦ none ])
      on_result compression_failed w = ends
      on_result connection_closed w = ends
      on_result write_success w = keeps w

  pub on_syn_stream-Keeps :
      (wire : Wire) (id associated priority slot : ℕ) (fin unidirectional : Bool)
      (block : HeaderBlock) (s : Session)
      → IsValid sizes s
      → Keeps sizes
          (on_syn_stream wire sizes id associated priority slot fin unidirectional block s)
  unfolding on_syn_stream
  on_syn_stream-Keeps wire id associated priority slot fin unidirectional block s v =
      if-Keeps s.already_sent_goaway (λ _. keeps v)
        λ _.
          if-Keeps (is_even id)
            (λ _. keeps (send_goaway_frame-IsValid wire goaway_protocol_error s v))
            λ odd.
              if-Keeps (is_stream_active id s.stream_map)
                (λ _. send_goaway_locked-Keeps wire goaway_protocol_error s v)
                λ fresh.
                  if-Keeps
                    (leb_ℤ s.max_streams_per_connection
                      (pos (num_active_client_streams s.stream_map)))
                    (λ _. keeps (send_rst_stream_frame-IsValid id refused_stream s v))
                    λ room. keeps (
                      open_stream-IsValid id associated priority slot fin unidirectional block s odd
                        fresh (ground arith) v)
