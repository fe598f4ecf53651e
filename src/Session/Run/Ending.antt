-- ===== src/Session/Run/Ending.antt =====
-- How the main loop of spdy_session.cc ends.
use mod_spdy.Common.{
  ℕ, ◌+◌, ◌≡◌, ◌⊎◌, inl, inr, refl, ◌∙◌, true, List, [], ◌∷◌, some, arith, Option-cases,
}
use mod_spdy.Frame.{HeaderBlock}
use mod_spdy.Protocol.{WindowSizes}
use mod_spdy.Stream.{Stream}
use mod_spdy.Session.State.{Session, Wire, stop_session}
use mod_spdy.Session.StreamMap.{get_stream}
use mod_spdy.Session.Push.{start_server_push, try_push, take_push_id, open_push}
use mod_spdy.Session.Work.{
  Work, ends, consumes, replies, adds_headers, sends_data, resets, pushes, consume, reset,
  sender_step, work_on, work, stream_of,
}
use mod_spdy.Session.Run.Backoff.{>>=-eq-some}
use mod_spdy.Session.Work.{work_all}
use mod_spdy.Session.Run.{
  ReadStatus, read_success, read_no_data, read_connection_closed, read_error, Round, Loop,
  handle_all, after_read, output_step, input_step, round, loop,
}

start_server_push-session_stopped :
    (sizes : WindowSizes) (associated depth priority : ℕ) (request : HeaderBlock) (s : Session)
    → (start_server_push sizes associated depth priority request s).1.session_stopped
      ≡ s.session_stopped
unfolding start_server_push try_push take_push_id open_push
start_server_push-session_stopped sizes associated depth priority request s = ground arith

work_on-session_stopped :
    (sizes : WindowSizes) (k : Work) (t : Stream) (s s' : Session)
    → work_on sizes k t s ≡ some s'
    → s'.session_stopped ≡ s.session_stopped
unfolding work_on consume sender_step reset
work_on-session_stopped sizes (ends id) t s s' e = ground arith
work_on-session_stopped sizes (consumes id size) t s s' e = ground arith
work_on-session_stopped sizes (replies id block fin) t s s' e = ground arith
work_on-session_stopped sizes (adds_headers id block fin) t s s' e = ground arith
work_on-session_stopped sizes (sends_data id fin c) t s s' e = ground arith
work_on-session_stopped sizes (resets id status) t s s' e = ground arith
work_on-session_stopped sizes (pushes id priority block) t s s' e = ground (
  arith,
  start_server_push-session_stopped sizes t.stream_id (t.server_push_depth + 1) priority block s,
)

work-session_stopped :
    (sizes : WindowSizes) (k : Work) (s s' : Session)
    → work sizes k s ≡ some s'
    → s'.session_stopped ≡ s.session_stopped
unfolding work
work-session_stopped sizes k s s' e = elim (Option-cases (get_stream (stream_of k) s.stream_map)) [
  | inl gone ↦ ground (arith, gone)
  | inr (t, found) ↦ ground (arith, found, work_on-session_stopped sizes k t s s')
]

work_all-session_stopped :
    (sizes : WindowSizes) (ks : List Work) (s s' : Session)
    → work_all sizes ks s ≡ some s'
    → s'.session_stopped ≡ s.session_stopped
unfolding work_all
work_all-session_stopped sizes [] s s' e = cc
work_all-session_stopped sizes (k ∷ ks) s s' e =
    let (t, e', e'') = >>=-eq-some (work sizes k s) (work_all sizes ks) s' e in
    work_all-session_stopped sizes ks t s' e'' ∙ work-session_stopped sizes k s t e'

after_read-stopped :
    (wire : Wire) (status : ReadStatus) (l : Loop)
    → (status ≡ read_connection_closed) ⊎ (status ≡ read_error)
    → (after_read wire status l).session.session_stopped ≡ true
unfolding after_read
after_read-stopped wire read_success l h = ground arith
after_read-stopped wire read_no_data l h = ground arith
after_read-stopped wire read_connection_closed l h = refl
after_read-stopped wire read_error l h = refl

loop-stopped :
    (wire : Wire) (sizes : WindowSizes) (rs : List Round) (l : Loop)
    → l.session.session_stopped ≡ true
    → loop wire sizes rs l ≡ some l
unfolding loop
loop-stopped wire sizes [] l h = refl
loop-stopped wire sizes (r ∷ rs) l h = rw h

output_step-stopped :
    (wire : Wire) (sizes : WindowSizes) (r : Round) (l l' : Loop)
    → l.session.session_stopped ≡ true
    → output_step wire sizes r l ≡ some l'
    → l'.session.session_stopped ≡ true
unfolding output_step
output_step-stopped wire sizes r l l' h e = ground arith

input_step-stopped :
    (wire : Wire) (sizes : WindowSizes) (r : Round) (l l' : Loop)
    → (r.status ≡ read_connection_closed) ⊎ (r.status ≡ read_error)
    → input_step wire sizes r l ≡ some l'
    → l'.session.session_stopped ≡ true
unfolding input_step
input_step-stopped wire sizes r l l' h e =
    let (s, _, e') = >>=-eq-some (handle_all wire sizes r.input l.session) _ l' e in
    let read = after_read wire r.status (record l { session = s }) in
    let (s', worked, e'') = >>=-eq-some (work_all sizes r.meanwhile read.session) _ l' e' in
    let stopped = after_read-stopped wire r.status (record l { session = s }) h in
    output_step-stopped wire sizes r (record read { session = s' }) l'
      (work_all-session_stopped sizes r.meanwhile read.session s' worked ∙ stopped) e''

-- A round in which the connection is found aborted, or the read ends with a closed connection or an
-- error, stops the session, whatever the client sent and the other threads do, unless the round never
-- ends; and then the loop takes no further round.
pub round-session_stopped :
    (wire : Wire) (sizes : WindowSizes) (r : Round) (rs : List Round) (l l' : Loop)
    → (r.connection_aborted ≡ true) ⊎ (r.status ≡ read_connection_closed) ⊎ (r.status ≡ read_error)
    → round wire sizes r l ≡ some l'
    → (l'.session.session_stopped ≡ true) × (loop wire sizes rs l' ≡ some l')
unfolding round loop stop_session
round-session_stopped wire sizes r rs l l' h e =
    let stopped : l'.session.session_stopped ≡ true =
      ground (arith, input_step-stopped wire sizes r l l') in
    (stopped, loop-stopped wire sizes rs l' stopped)
