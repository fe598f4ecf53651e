-- ===== src/Session/Settings.antt =====
-- What SETTINGS, HEADERS and DATA frames do to the streams of a session (spdy_session.cc).
use mod_spdy.Common.{
  ℕ, ltb, ◌==◌, ◌||◌, ◌+ℤ◌, ◌⊎◌, inl, inr, Bool-cases, ◌≤◌, ◌<◌, ◌≡◌, refl, ℤ, pos, ◌-ℤ◌, Bool,
  true, false, List, [], ◌∷◌, Option, none, some, arith,
}
use mod_spdy.Frame.{HeaderBlock, Frame, syn_stream, initial_window_size}
use mod_spdy.FrameQueue
use mod_spdy.PriorityQueue.{PriorityQueue}
use mod_spdy.Protocol.{WindowSizes, has_stream_windows}
use mod_spdy.Stream.{
  Stream, adjust_output_window_size, post_input_frame, enqueue_input, data_frame_length,
}
use mod_spdy.Session.StreamMap.{
  find, get_stream, put_stream, update, adjust_all, adjust_all_output_window_sizes,
}
use mod_spdy.Session.StreamMap.InPlace.{adjust-stream_id, find-stream_id}
use mod_spdy.Session.State.{Session, Wire, set_initial_window_size, adjust_windows}
use mod_spdy.Stream.{abort_silently}
use mod_spdy.Stream.Window.{InRange, adjust_output_window_size-Adjusts}
use mod_spdy.Session.Handlers.{on_setting, on_headers, post_to_stream}

-- What happens to the stream with an ID when the windows are adjusted: a stream that is aborted stays as it
-- is; else its window moves by the difference, or it is aborted if that is out of range.
abbrev pub Moves : WindowSizes → ℤ → Option Stream → Option Stream → Type 0
Moves sizes delta none none = Unit
Moves sizes delta none (some t') = ⊥
Moves sizes delta (some t) none = ⊥
Moves sizes delta (some t) (some t') =
    ((t.is_aborted ≡ true) × (t' ≡ t))
    ⊎ ((t.is_aborted ≡ false)
        × InRange sizes (t.output_window_size +ℤ delta)
        × (t' ≡ record t { output_window_size = t.output_window_size +ℤ delta }))
    ⊎ ((t.is_aborted ≡ false)
        × (¬ InRange sizes (t.output_window_size +ℤ delta))
        × (t' ≡ abort_silently t))

aborted_stays :
    (sizes : WindowSizes) (delta : ℤ) (t : Stream) (q : PriorityQueue Frame)
    → t.is_aborted ≡ true
    → (adjust_output_window_size sizes delta t q).0 ≡ t
unfolding adjust_output_window_size
aborted_stays sizes delta t q h = ground arith

adjust-Moves :
    (sizes : WindowSizes) (delta : ℤ) (t : Stream) (q : PriorityQueue Frame)
    → Moves sizes delta (some t) (some (adjust_output_window_size sizes delta t q).0)
adjust-Moves sizes delta t q = elim (Bool-cases t.is_aborted) [
  | inl aborted ↦ inl (aborted, aborted_stays sizes delta t q aborted)
  | inr running ↦ elim (adjust_output_window_size-Adjusts sizes delta t q running) [
    | inl (fits, same, queue) ↦ inr (inl (running, fits, same))
    | inr (beyond, same, queue) ↦ inr (inr (running, beyond, same))
  ]
]

find-adjust_all :
    (id : ℕ) (sizes : WindowSizes) (delta : ℤ) (ts : List Stream) (q : PriorityQueue Frame)
    → Moves sizes delta (find id ts) (find id (adjust_all sizes delta ts q).0)
unfolding find adjust_all
find-adjust_all id sizes delta [] q = tt
find-adjust_all id sizes delta (t ∷ ts) q =
    let (t', q') = adjust_output_window_size sizes delta t q in
    let same = adjust-stream_id sizes delta t q in
    elim (Bool-cases (t.stream_id == id)) [
      | inl here ↦ rw (same, here) (adjust-Moves sizes delta t q)
      | inr further ↦ rw (same, further) (find-adjust_all id sizes delta ts q')
    ]

-- A SETTINGS frame over SPDY/3 and up with a valid initial window size sets it for new streams, and then, under
-- the lock, adjusts the windows of the active streams by the difference to the size before. Whatever
-- session the other threads have left by then: a stream that is not aborted has its window moved by
-- the difference, or is aborted if that is out of range; an aborted one stays as it is; and no stream
-- is added or lost.
pub on_setting-Moves :
    (wire : Wire) (sizes : WindowSizes) (value : ℕ) (s : Session)
    → has_stream_windows s.spdy_version ≡ true
    → 0 < value
    → value ≤ sizes.maximum
    → (let delta = pos value -ℤ pos s.initial_window_size in
        (on_setting wire sizes initial_window_size value s
          ≡ adjust_windows sizes delta (record s { initial_window_size = value }))
        × ((s' : Session) (id : ℕ)
            → Moves sizes delta
                (get_stream id s'.stream_map)
                (get_stream id (adjust_windows sizes delta s').stream_map)))
unfolding on_setting set_initial_window_size get_stream adjust_windows
    adjust_all_output_window_sizes
on_setting-Moves wire sizes value s new h k =
    let delta = pos value -ℤ pos s.initial_window_size in
    let bad : (value == 0 || ltb sizes.maximum value) ≡ false = ground arith in
    (
      rw (new, bad) refl,
      (λ s' id. find-adjust_all id sizes delta s'.stream_map.tasks s'.output_queue),
    )

find-update :
    (id : ℕ) (t u : Stream) (ts : List Stream)
    → find id ts ≡ some u
    → t.stream_id ≡ id
    → find id (update t ts) ≡ some t
unfolding find update
find-update id t u [] e h = cc
find-update id t u (v ∷ ts) e h = ground (arith, find-update id t u ts)

-- OnHeaders does not look at the frame's FLAG_FIN: with and without it a running stream gets the
-- headers as a SYN_STREAM frame that carries FLAG_FIN.
pub on_headers-fin :
    (id : ℕ) (fin : Bool) (block : HeaderBlock) (s : Session) (t : Stream)
    → get_stream id s.stream_map ≡ some t
    → t.is_aborted ≡ false
    → (on_headers id fin block s ≡ on_headers id true block s)
      × (get_stream id (on_headers id fin block s).stream_map
          ≡ some (record t {
            input_queue = FrameQueue.insert (syn_stream id 0 0 0 true false block) t.input_queue;
          }))
unfolding on_headers post_to_stream get_stream put_stream post_input_frame enqueue_input
    data_frame_length
on_headers-fin id fin block s t found running =
    let f = syn_stream id 0 0 0 true false block in
    let t' = record t { input_queue = FrameQueue.insert f t.input_queue } in
    (
      refl,
      ground
          (arith, find-stream_id id s.stream_map.tasks t, find-update id t' t s.stream_map.tasks),
    )
