-- ===== src/Session/Valid/Works.antt =====
-- Every step of a stream thread keeps the invariant of a session (spdy_session.cc, spdy_stream.cc).
use mod_spdy.Common.{
  ℕ, ◌+◌, ◌%◌, ◌<◌, leb, ◌≡◌, inl, inr, refl, ap, ◌∙◌, pos, Bool, true, false, some, arith,
  if◌then◌else◌, Option-cases,
}
use mod_spdy.Frame.{HeaderBlock, Frame, syn_stream}
use mod_spdy.PriorityQueue.{PriorityQueue}
use mod_spdy.Protocol.{WindowSizes}
use mod_spdy.SharedWindow.{SharedWindow}
use mod_spdy.Stream
use mod_spdy.Stream.{
  Stream, is_even, is_server_push, post_input_frame, on_input_data_consumed, abort_with_rst_stream,
  send_output_syn_stream,
}
use mod_spdy.Stream.Sender
use mod_spdy.Session.StreamMap.{find, get_stream, put_stream, is_stream_active, remove_stream_task}
use mod_spdy.Session.StreamMap.Valid.{IsValid-mono, find-above}
use mod_spdy.Session.StreamMap.InPlace.{
  put_stream-IsValid, post_input_frame-stream_id, find-stream_id,
}
use mod_spdy.Session.StreamMap.Adding.{add_stream_task-IsValid, remove_stream_task-IsValid}
use mod_spdy.Session.State.{Session}
use mod_spdy.Session.Push.{
  PushStatus, max_server_push_stream_id, open_push, take_push_id, try_push, start_server_push,
  initial_response_headers,
}
use mod_spdy.Session.Work.{
  Work, ends, consumes, replies, adds_headers, sends_data, resets, pushes, consume, reset,
  sender_step, work_on, work, stream_of,
}
use mod_spdy.Session.Valid.{IsValid, queues-IsValid}
use mod_spdy.Session.Valid.Streams.{Keeps, keeps}
use mod_spdy.Session.Valid.Streams

is_even-add_two : (n : ℕ) → n % 2 ≡ 0 → is_even (n + 2) ≡ true
is_even-add_two n h = ground arith

-- In a valid session the next push ID is not in use.
pub next_push_id-free :
    {sizes : WindowSizes} (s : Session)
    → IsValid sizes s
    → is_stream_active (s.last_server_push_stream_id + 2) s.stream_map ≡ false
unfolding is_stream_active
next_push_id-free s v = rw (
    find-above s.last_server_push_stream_id (s.last_server_push_stream_id + 2) s.stream_map.tasks
      v.map.below (omega arith) (is_even-add_two s.last_server_push_stream_id v.even))

module _ {sizes : WindowSizes} where
  open_push-IsValid :
      (associated depth priority : ℕ) (request initial : HeaderBlock) (s : Session)
      → s.last_server_push_stream_id < max_server_push_stream_id
      → IsValid sizes s
      → IsValid sizes (
          open_push sizes
            (s.last_server_push_stream_id + 2)
            associated
            depth
            priority
            request
            initial
            (record s { last_server_push_stream_id = s.last_server_push_stream_id + 2 }))
  unfolding open_push Stream.create
  open_push-IsValid associated depth priority request initial s room v =
      let id = s.last_server_push_stream_id + 2 in
      let f = syn_stream id associated priority 0 true false request in
      let task =
        Stream.create sizes s.spdy_version id associated depth priority
          (pos s.initial_window_size) in
      let task' = (post_input_frame f task s.output_queue).0 in
      let same = post_input_frame-stream_id f task s.output_queue in
      let even = is_even-add_two s.last_server_push_stream_id v.even in
      record {
        map =
            add_stream_task-IsValid task' s.stream_map (rw same (next_push_id-free s v))
              (inr (omega (arith, same))) (inl (rw same even))
              (IsValid-mono s.last_server_push_stream_id id s.stream_map (omega arith) v.map);
        even = omega (arith, v.even);
        ids_fit = omega (arith, v.even);
        window_pos = v.window_pos;
        window_max = v.window_max;
        one_goaway = v.one_goaway;
      }

  if-push :
      (b : Bool) (x y : PushStatus × Session)
      → (b ≡ true → IsValid sizes x.1)
      → (b ≡ false → IsValid sizes y.1)
      → IsValid sizes (if b then x else y).1
  if-push true x y vx vy = vx refl
  if-push false x y vx vy = vy refl

  try_push-IsValid :
      (associated depth priority : ℕ) (request initial : HeaderBlock) (s : Session)
      → IsValid sizes s
      → IsValid sizes (try_push sizes associated depth priority request initial s).1
  unfolding try_push take_push_id
  try_push-IsValid associated depth priority request initial s v =
      if-push s.received_goaway _ _ (λ _. v)
        λ _.
          if-push (is_stream_active associated s.stream_map) _ _
            (λ _.
              if-push (leb s.max_concurrent_pushes s.stream_map.num_active_push_streams) _ _
                (λ _. v)
                λ _.
                  if-push (leb max_server_push_stream_id s.last_server_push_stream_id) _ _ (λ _. v)
                    λ room. rw (next_push_id-free s v) (
                      open_push-IsValid associated depth priority request initial s (ground arith)
                        v))
            (λ _. v)

  start_server_push-IsValid :
      (associated depth priority : ℕ) (request : HeaderBlock) (s : Session)
      → IsValid sizes s
      → IsValid sizes (start_server_push sizes associated depth priority request s).1
  unfolding start_server_push
  start_server_push-IsValid associated depth priority request s v =
      elim (Option-cases (initial_response_headers request)) [
        | inl none_found ↦ rw (none_found, start_server_push) v
        | inr (initial, found) ↦
            rw (found, start_server_push)
              (try_push-IsValid associated depth priority request initial s v)
      ]

  put-IsValid :
      (t : Stream) (q : PriorityQueue Frame) (w : SharedWindow) (s : Session)
      → IsValid sizes s
      → IsValid sizes
          (record s { stream_map = put_stream t s.stream_map; output_queue = q; shared_window = w })
  put-IsValid t q w s v =
      queues-IsValid (put_stream t s.stream_map) q w s (put_stream-IsValid t s.stream_map v.map) v

  consume-Keeps :
      (size : ℕ) (t : Stream) (s : Session) → IsValid sizes s → Keeps sizes (consume sizes size t s)
  unfolding consume
  consume-Keeps size t s v =
      elim (Option-cases (on_input_data_consumed sizes size t s.output_queue s.shared_window)) [
        | inl fails ↦ rw (fails, consume) Streams.ends
        | inr ((t', q, w), e) ↦ rw (e, consume) (keeps (put-IsValid t' q w s v))
      ]

  work_on-Keeps :
      (k : Work) (t : Stream) (s : Session)
      → get_stream (stream_of k) s.stream_map ≡ some t
      → IsValid sizes s
      → Keeps sizes (work_on sizes k t s)
  unfolding work_on sender_step reset get_stream
  work_on-Keeps (ends id) t s e v =
      let same = find-stream_id id s.stream_map.tasks t e in
      keeps (
        queues-IsValid (remove_stream_task t s.stream_map) s.output_queue s.shared_window s
          (remove_stream_task-IsValid s.stream_map t (ap (λ i. find i s.stream_map.tasks) same ∙ e)
            v.map)
          v)
  work_on-Keeps (consumes id size) t s e v = consume-Keeps size t s v
  work_on-Keeps (replies id block fin) t s e v =
      keeps (queues-IsValid s.stream_map _ s.shared_window s v.map v)
  work_on-Keeps (adds_headers id block fin) t s e v =
      keeps (queues-IsValid s.stream_map _ s.shared_window s v.map v)
  work_on-Keeps (sends_data id fin c) t s e v =
      let p = Sender.step fin c t s.shared_window in keeps (put-IsValid p.stream _ p.window s v)
  work_on-Keeps (resets id status) t s e v = keeps (
      put-IsValid (abort_with_rst_stream status t s.output_queue).0
        (abort_with_rst_stream status t s.output_queue).1 s.shared_window s v)
  work_on-Keeps (pushes id priority block) t s e v =
      keeps (start_server_push-IsValid t.stream_id (t.server_push_depth + 1) priority block s v)

  pub work-Keeps : (k : Work) (s : Session) → IsValid sizes s → Keeps sizes (work sizes k s)
  unfolding work
  work-Keeps k s v = elim (Option-cases (get_stream (stream_of k) s.stream_map)) [
    | inl gone ↦ rw (gone, work) (keeps v)
    | inr (t, found) ↦ rw (found, work) (work_on-Keeps k t s found v)
  ]
