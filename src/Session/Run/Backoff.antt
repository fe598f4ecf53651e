-- ===== src/Session/Run/Backoff.antt =====
-- How long the main loop of spdy_session.cc waits for output.
use mod_spdy.Common.{ℕ, List, ◌≤◌, ◌≡◌, refl, pos, Bool, Option, none, some, arith, if◌then◌else◌}
use mod_spdy.Frame.{Frame}
use mod_spdy.PriorityQueue.{Blocking, sleeps, timed_out, popped, blocking_pop}
use mod_spdy.Protocol.{WindowSizes}
use mod_spdy.Session.StreamMap
use mod_spdy.Session.State.{Wire}
use mod_spdy.Session.StreamMap.{get_stream}
use mod_spdy.Session.Work.{Work}
use mod_spdy.Session.Work.{work_all}
use mod_spdy.Common.{◌>>=◌}
use mod_spdy.Session.Run.{
  ReadStatus, read_success, Round, Loop, handle_all, drain, after_read, send_output, output_step,
  input_step, round, init_output_block_time, max_output_block_time,
}

-- The time that the loop is willing to wait for output.
abbrev pub IsBlockTime : ℕ → Type 0
IsBlockTime t = (init_output_block_time ≤ t) × (t ≤ max_output_block_time)

pub >>=-eq-some :
    {A B : Type 0} (m : Option A) (f : A → Option B) (b : B)
    → (m >>= f) ≡ some b
    → (a : A) × (m ≡ some a) × (f a ≡ some b)
>>=-eq-some none f b e = cc
>>=-eq-some (some a) f b e = (a, refl, e)

send_output-IsBlockTime :
    (wire : Wire) (sizes : WindowSizes) (turns : List (List Work)) (idle : Bool)
    (b : Blocking Frame) (l l' : Loop)
    → send_output wire sizes turns idle l b ≡ some l'
    → IsBlockTime l.output_block_time
    → IsBlockTime l'.output_block_time
unfolding send_output
send_output-IsBlockTime wire sizes turns idle sleeps l l' e h = cc
send_output-IsBlockTime wire sizes turns idle timed_out l l' e h = ground arith
send_output-IsBlockTime wire sizes turns idle (popped f q) l l' e h =
    let (s, _, e') =
      >>=-eq-some (drain wire sizes turns f (record l.session { output_queue = q })) _ l' e in
    ground arith

output_step-IsBlockTime :
    (wire : Wire) (sizes : WindowSizes) (r : Round) (l l' : Loop)
    → output_step wire sizes r l ≡ some l'
    → IsBlockTime l.output_block_time
    → IsBlockTime l'.output_block_time
unfolding output_step
output_step-IsBlockTime wire sizes r l l' e h =
    let idle = StreamMap.is_empty l.session.stream_map in
    let b =
      blocking_pop (if idle then pos 0 else pos l.output_block_time) r.wakes
        l.session.output_queue in
    ground (arith, send_output-IsBlockTime wire sizes r.turns idle b l l')

after_read-IsBlockTime :
    (wire : Wire) (status : ReadStatus) (l : Loop)
    → IsBlockTime l.output_block_time
    → IsBlockTime (after_read wire status l).output_block_time
unfolding after_read
after_read-IsBlockTime wire read_success l h = omega arith
after_read-IsBlockTime wire _ l h = h

input_step-IsBlockTime :
    (wire : Wire) (sizes : WindowSizes) (r : Round) (l l' : Loop)
    → input_step wire sizes r l ≡ some l'
    → IsBlockTime l.output_block_time
    → IsBlockTime l'.output_block_time
unfolding input_step
input_step-IsBlockTime wire sizes r l l' e h =
    let (s, _, e') = >>=-eq-some (handle_all wire sizes r.input l.session) _ l' e in
    let read = after_read wire r.status (record l { session = s }) in
    let (s', _, e'') = >>=-eq-some (work_all sizes r.meanwhile read.session) _ l' e' in
    output_step-IsBlockTime wire sizes r (record read { session = s' }) l' e''
      (after_read-IsBlockTime wire r.status (record l { session = s }) h)

-- The backoff of the loop stays between one and thirty milliseconds through every round.
pub round-IsBlockTime :
    (wire : Wire) (sizes : WindowSizes) (r : Round) (l l' : Loop)
    → round wire sizes r l ≡ some l'
    → IsBlockTime l.output_block_time
    → IsBlockTime l'.output_block_time
unfolding round
round-IsBlockTime wire sizes r l l' e h = ground (arith, input_step-IsBlockTime wire sizes r l l')
