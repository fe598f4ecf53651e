-- ===== src/Session/Valid/Events.antt =====
-- Every callback of the framer keeps the invariant of a session (spdy_session.cc).
use mod_spdy.Common.{ℕ, ◌==◌, not, refl, true, false, Option, none, some}
use mod_spdy.Frame.{
  syn_stream, ping, GoAwayStatus, goaway_protocol_error, other_goaway, protocol_error,
  invalid_stream, SettingsId, max_concurrent_streams, initial_window_size, other_settings,
}
use mod_spdy.Protocol.{WindowSizes, has_stream_windows, has_shared_window, as_int32}
use mod_spdy.SharedWindow
use mod_spdy.Stream.{Stream, is_even, adjust_output_window_size}
use mod_spdy.Session.StreamMap.{get_stream}
use mod_spdy.Session.StreamMap.InPlace.{put_stream-IsValid}
use mod_spdy.Session.State.{Session, Wire, abort_stream}
use mod_spdy.Session.Handlers.{
  Event, error, stream_error, stream_frame_data, syn_stream_event, syn_reply_event,
  rst_stream_event, settings_event, setting, ping_event, goaway_event, headers_event, push_promise,
  window_update_event, with_stream, on_stream_error, on_rst_stream, on_setting, on_ping, on_goaway,
  on_headers, increase_shared, on_window_update, on_event,
}
use mod_spdy.Session.Valid.{
  IsValid, if-IsValid, stop_session-IsValid, send_frame-IsValid, send_goaway_frame-IsValid,
  queues-IsValid, abort_stream_silently-IsValid, set_initial_window_size-IsValid,
}
use mod_spdy.Session.Valid.Streams.{
  Keeps, keeps, send_rst_stream_frame-IsValid, post_to_stream-IsValid, on_stream_frame_data-IsValid,
  on_syn_stream-Keeps,
}

module _ {sizes : WindowSizes} where
  on_setting-IsValid :
      (wire : Wire) (id : SettingsId) (value : ℕ) (s : Session)
      → IsValid sizes s
      → IsValid sizes (on_setting wire sizes id value s)
  unfolding on_setting
  on_setting-IsValid wire max_concurrent_streams value s v = record {
    map = v.map;
    even = v.even;
    ids_fit = v.ids_fit;
    window_pos = v.window_pos;
    window_max = v.window_max;
    one_goaway = v.one_goaway;
  }
  on_setting-IsValid wire initial_window_size value s v =
      if-IsValid (has_stream_windows s.spdy_version)
        (λ _. set_initial_window_size-IsValid wire value s v)
        (λ _. send_goaway_frame-IsValid wire goaway_protocol_error s v)
  on_setting-IsValid wire (other_settings id) value s v =
      send_goaway_frame-IsValid wire goaway_protocol_error s v
  on_setting-IsValid wire _ value s v = v

  receive_goaway-IsValid :
      (s : Session) → IsValid sizes s → IsValid sizes (record s { received_goaway = true })
  receive_goaway-IsValid s v = record {
    map = v.map;
    even = v.even;
    ids_fit = v.ids_fit;
    window_pos = v.window_pos;
    window_max = v.window_max;
    one_goaway = v.one_goaway;
  }

  on_goaway-IsValid :
      (wire : Wire) (status : GoAwayStatus) (s : Session)
      → IsValid sizes s
      → IsValid sizes (on_goaway wire status s)
  unfolding on_goaway
  on_goaway-IsValid wire (other_goaway status) s v =
      send_goaway_frame-IsValid wire goaway_protocol_error _ (receive_goaway-IsValid s v)
  on_goaway-IsValid wire _ s v = receive_goaway-IsValid s v

  increase_shared-IsValid :
      (wire : Wire) (delta : ℕ) (s : Session)
      → IsValid sizes s
      → IsValid sizes (increase_shared wire sizes delta s)
  unfolding increase_shared
  increase_shared-IsValid wire delta s v =
      let r =
        SharedWindow.increase_output_window_size sizes.maximum (as_int32 delta) s.shared_window in
      let v' = queues-IsValid s.stream_map s.output_queue r.1 s v.map v in
      if-IsValid r.0 (λ _. v')
        λ _. stop_session-IsValid _ (send_goaway_frame-IsValid wire goaway_protocol_error _ v')

  adjust_found-IsValid :
      (delta : ℕ) (o : Option Stream) (s : Session)
      → IsValid sizes s
      → IsValid sizes (elim o [
        | none ↦ s
        | some t ↦ with_stream (adjust_output_window_size sizes (as_int32 delta) t s.output_queue) s
      ])
  adjust_found-IsValid delta none s v = v
  adjust_found-IsValid delta (some t) s v =
      let r = adjust_output_window_size sizes (as_int32 delta) t s.output_queue in
      queues-IsValid _ r.1 s.shared_window s (put_stream-IsValid r.0 s.stream_map v.map) v

  on_window_update-IsValid :
      (wire : Wire) (id delta : ℕ) (s : Session)
      → IsValid sizes s
      → IsValid sizes (on_window_update wire sizes id delta s)
  unfolding on_window_update
  on_window_update-IsValid wire id delta s v =
      let sent = send_goaway_frame-IsValid wire goaway_protocol_error s v in
      if-IsValid (not (has_stream_windows s.spdy_version)) (λ _. sent)
        λ _.
          if-IsValid (id == 0)
            (λ _.
              if-IsValid (has_shared_window s.spdy_version)
                (λ _. increase_shared-IsValid wire delta s v) (λ _. stop_session-IsValid _ sent))
            (λ _. adjust_found-IsValid delta (get_stream id s.stream_map) s v)

  pub on_event-Keeps :
      (wire : Wire) (e : Event) (s : Session)
      → IsValid sizes s
      → Keeps sizes (on_event wire sizes e s)
  unfolding on_event on_stream_error abort_stream on_rst_stream on_ping on_headers
  on_event-Keeps wire error s v = keeps (send_goaway_frame-IsValid wire goaway_protocol_error s v)
  on_event-Keeps wire (stream_error id) s v =
      keeps
        (abort_stream_silently-IsValid id _ (send_rst_stream_frame-IsValid id protocol_error s v))
  on_event-Keeps wire (stream_frame_data id bytes fin) s v =
      keeps (on_stream_frame_data-IsValid wire id bytes fin s v)
  on_event-Keeps wire (syn_stream_event id associated priority slot fin uni block) s v =
      on_syn_stream-Keeps wire id associated priority slot fin uni block s v
  on_event-Keeps wire (syn_reply_event id fin block) s v = keeps (v)
  on_event-Keeps wire (rst_stream_event id status) s v =
      keeps (abort_stream_silently-IsValid id s v)
  on_event-Keeps wire (settings_event clear) s v = keeps (v)
  on_event-Keeps wire (setting id flags value) s v = keeps (on_setting-IsValid wire id value s v)
  on_event-Keeps wire (ping_event id) s v =
      keeps (if-IsValid (is_even id) (λ _. v) (λ _. send_frame-IsValid wire (ping id) s refl v))
  on_event-Keeps wire (goaway_event last status) s v = keeps (on_goaway-IsValid wire status s v)
  on_event-Keeps wire (headers_event id fin block) s v = keeps (
      post_to_stream-IsValid (syn_stream id 0 0 0 true false block) id s _ v
        (send_rst_stream_frame-IsValid id invalid_stream s v))
  on_event-Keeps wire (push_promise id promised) s v =
      keeps (send_goaway_frame-IsValid wire goaway_protocol_error s v)
  on_event-Keeps wire (window_update_event id delta) s v =
      keeps (on_window_update-IsValid wire id delta s v)
