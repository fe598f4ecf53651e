-- ===== src/Stream/Sender.antt =====
-- SendOutputDataFrame of src/mod_spdy/common/spdy_stream.cc, one step for each stretch of code that
-- runs under a lock. Between two steps of the stream thread other threads may run: they may abort the
-- stream, change both windows and use the queue.
pub mod Reserving
pub mod Delivery
pub mod Credit
pub mod Race
use mod_spdy.Common.{
  ℕ, ltb, leb, ◌==◌, ℤ, pos, pos_part, ◌+ℤ◌, ◌-ℤ◌, ltb_ℤ, leb_ℤ, eqb_ℤ, min_ℤ, Bool, true, false,
  not, ◌&&◌, ◌||◌, List, [], ◌∷◌, take, drop, length, Option, none, some, if◌then◌else◌,
}
use mod_spdy.Frame.{Bytes, Frame, data_frame, no_bytes}
use mod_spdy.Protocol.{has_stream_windows, has_shared_window}
use mod_spdy.SharedWindow.{SharedWindow, Quota, waits, gets, request_output_quota}
use mod_spdy.Stream.{Stream, abort_silently}

-- Where the stream thread stands, with the data that is still to be sent.
pub data Sender : Type 0 where
  finished : Sender  -- the method has returned
  sending : Bytes → Sender  -- at the head of the loop, or asleep in its inner loop
  requesting : Bytes → (length_desired : ℤ) → Sender  -- in RequestOutputQuota, unlocked
  acquired : Bytes → (length_desired length_acquired : ℤ) → Sender  -- about to lock again

-- A thread, its stream and the shared window, and what the step put in the output queue. `checks` is
-- false if the DCHECK of SendOutputFrame fails, that the stream is not aborted; a release build goes on.
pub record Progress : Type 0 where
  pub sender : Sender
  pub stream : Stream
  pub window : SharedWindow
  pub sent : Option Frame
  pub checks : Bool

abbrev idle : Sender → Stream → SharedWindow → Progress
idle c s w = record { sender = c; stream = s; window = w; sent = none; checks = true }

-- The head of the loop, `while (!data.empty())`.
abbrev pub loop_head : Bytes → Sender
loop_head [] = finished
loop_head (b ∷ bs) = sending (b ∷ bs)

-- The code up to the loop.
unfoldable pub begin : Bytes → Bool → Stream → SharedWindow → Progress
begin bytes fin s w =
    if s.is_aborted
    then idle finished s w
    else if not (has_stream_windows s.spdy_version) || no_bytes bytes
    then (if not (no_bytes bytes) || fin
        then record {
          sender = finished;
          stream = s;
          window = w;
          sent = some (data_frame s.stream_id fin bytes);
          checks = true;
        }
        else idle finished s w)
    else idle (loop_head bytes) s w

-- RequestOutputQuota, from the stream's side.
unfoldable pub request : Bytes → ℤ → Stream → SharedWindow → Progress
request bytes desired s w = elim (request_output_quota desired w) [
  | waits ↦ idle (requesting bytes desired) s w
  | gets amount w' ↦ idle (acquired bytes desired amount) s w'
]

-- The sum of an int32 and a positive one, on a machine where int32 wraps around.
unfoldable pub add_int32 : ℤ → ℤ → ℤ
add_int32 window unused =
    if leb_ℤ (pos 2147483648) (window +ℤ unused)
    then window +ℤ unused -ℤ pos 4294967296
    else window +ℤ unused

-- From the call to the end of the loop's body, and the head of the loop again.
unfoldable pub deliver : Bytes → Bool → ℤ → ℤ → Stream → SharedWindow → Progress
unfolding abort_silently add_int32
deliver bytes fin desired amount s w =
    let n = pos_part amount in
    if leb_ℤ amount (pos 0) then idle finished (abort_silently s) w else record {
      sender = loop_head (drop n bytes);
      stream = record s {
        output_window_size =
            if ltb_ℤ amount desired
            then add_int32 s.output_window_size (desired -ℤ amount)
            else s.output_window_size;
      };
      window = w;
      sent =
          some (data_frame s.stream_id (fin && eqb_ℤ amount (pos (length bytes))) (take n bytes));
      checks = not s.is_aborted;
    }

-- From the inner loop to the call of RequestOutputQuota; without a shared window the lock is kept, and the
-- rest of the loop's body follows at once.
unfoldable pub reserve : Bytes → Bool → Stream → SharedWindow → Progress
unfolding deliver
reserve bytes fin s w =
    let desired = min_ℤ (pos (length bytes)) s.output_window_size in
    let s' = record s { output_window_size = s.output_window_size -ℤ desired } in
    if s.is_aborted
    then idle finished s w
    else if leb_ℤ s.output_window_size (pos 0)
    then idle (sending bytes) s w
    else if has_shared_window s.spdy_version
    then idle (requesting bytes desired) s' w
    else deliver bytes fin desired desired s' w

-- One step of the thread that sends data with flag `fin`.
unfoldable pub step : Bool → Sender → Stream → SharedWindow → Progress
unfolding reserve request deliver
step fin finished s w = idle finished s w
step fin (sending bytes) s w = reserve bytes fin s w
step fin (requesting bytes desired) s w = request bytes desired s w
step fin (acquired bytes desired amount) s w = deliver bytes fin desired amount s w
