-- ===== src/Tests/Streams.antt =====
-- Runs of spdy_stream.cc.
use mod_spdy.Common.{
  ℕ, Bool, ◌+◌, ◌-◌, ◌+ℤ◌, ◌<◌, ◌≤◌, ◌≡◌, ◌⊎◌, refl, pos, ◌-ℤ◌, ◌<ℤ◌, length, take, true, false, [],
  ◌∷◌, ◌++◌, some, arith,
}
use mod_spdy.Frame.{Bytes, Frame, data_frame, cancel}
use mod_spdy.PriorityQueue.{PriorityQueue}
use mod_spdy.Protocol.{version_3, WindowSizes, IsSane}
use mod_spdy.SharedWindow.{SharedWindow, request_output_quota}
use mod_spdy.Stream
use mod_spdy.Stream.{
  Stream, post_input_frame, adjust_output_window_size, on_input_data_consumed,
  abort_with_rst_stream, send_output_syn_stream, send_output_syn_reply, send_output_headers,
  data_frame_length,
}
use mod_spdy.Stream.Window.{Adjusts, adjust_output_window_size-Adjusts}
use mod_spdy.Stream.Input
use mod_spdy.Stream.Input.{input_lem}
use mod_spdy.Stream.Sender.{sending, acquired, step, begin}
use mod_spdy.Stream.Sender.Delivery.{begins, steps, Holds, Flags, sent_bytes, sent_bytes-append}
use mod_spdy.Stream.Sender.Credit.{IsSound, Conserves, step-Conserves}
use mod_spdy.Stream.Sender.Race.{
  MaySend, delivered, raised, desired_of, delivered-abort_with_rst_stream,
  delivered-adjust_output_window_size,
}
use mod_spdy.Protocol.{version_3_1}

-- The sizes that the tests of the repository show: 65536 and the largest int32.
abbrev pub usual_sizes : WindowSizes
usual_sizes = record { initial = 65536; maximum = 0x7FFFFFFF }

pub usual_sizes-IsSane : IsSane usual_sizes
usual_sizes-IsSane = record { positive = omega arith; allowed = omega arith; fits = omega arith }

abbrev stream_1 : Stream
stream_1 = record {
  spdy_version = version_3;
  stream_id = 1;
  associated_stream_id = 0;
  server_push_depth = 0;
  priority = 2;
  input_queue = record { is_aborted = false; queue = [] };
  is_aborted = false;
  output_window_size = pos 2;
  input_window_size = 65536;
  input_bytes_consumed = 0;
}

abbrev no_frames : PriorityQueue Frame
no_frames = record { queue_map = [] }

abbrev window_10 : SharedWindow
window_10 = record {
  is_aborted = false;
  init_input_window_size = 10;
  input_window_size = 10;
  input_bytes_consumed = 0;
  output_window_size = pos 10;
}

abbrev stream_31 : Stream
stream_31 = record stream_1 { spdy_version = version_3_1 }

abbrev three_bytes : Bytes
three_bytes = 7 ∷ 8 ∷ 9 ∷ []

-- With a window of two bytes the first of two frames has no FLAG_FIN.
first_frame :
    (step true (acquired three_bytes (pos 2) (pos 2)) stream_31 window_10).sent
    ≡ some (data_frame 1 false (7 ∷ 8 ∷ []))
unfolding step
first_frame = refl

sent_bytes-append_example :
    (rest : Bytes) × Holds true rest (sending (9 ∷ []))
    × (sent_bytes (data_frame 1 false (7 ∷ 8 ∷ []) ∷ []) ++ rest ≡ three_bytes)
    × Flags true rest (data_frame 1 false (7 ∷ 8 ∷ []) ∷ [])
unfolding step begin ◌-ℤ◌ request_output_quota
sent_bytes-append_example = sent_bytes-append {bytes = three_bytes} {fin = true} (
    steps stream_31 window_10
      (steps stream_31 window_10 (steps stream_31 window_10 (begins stream_31 window_10))))

step-Conserves_example :
    IsSound (step true (sending three_bytes) stream_31 window_10).sender
    × Conserves
        (sending three_bytes)
        stream_31
        (step true (sending three_bytes) stream_31 window_10)
unfolding ◌+ℤ◌
step-Conserves_example =
    step-Conserves true (sending three_bytes) stream_31 window_10 (omega arith) (omega arith)

stream_31-MaySend : MaySend three_bytes stream_31 window_10
stream_31-MaySend = (refl, omega arith, refl, omega arith, refl, omega arith)

delivered-abort_with_rst_stream_example :
    (let p =
        delivered true three_bytes
          (λ t. (abort_with_rst_stream cancel t no_frames).0)
          stream_31
          window_10 in
      (p.stream.is_aborted ≡ true)
      × (p.checks ≡ false)
      × ((n : ℕ) × (last : Bool) × (0 < n)
          × (n ≤ length three_bytes)
          × (p.sent ≡ some (data_frame 1 last (take n three_bytes)))))
delivered-abort_with_rst_stream_example =
    delivered-abort_with_rst_stream cancel no_frames true three_bytes stream_31 window_10
      stream_31-MaySend

abbrev window_1 : SharedWindow
window_1 = record window_10 { output_window_size = pos 1 }

delivered-adjust_output_window_size_example :
    (let p =
        delivered true three_bytes
          (raised usual_sizes
            (pos 2147483647 -ℤ (pos 2 -ℤ desired_of three_bytes stream_31))
            no_frames)
          stream_31
          window_1 in
      (p.stream.output_window_size <ℤ pos 0) × (p.stream.is_aborted ≡ false))
delivered-adjust_output_window_size_example =
    delivered-adjust_output_window_size usual_sizes no_frames true three_bytes stream_31 window_1
      (refl, omega arith, refl, omega arith, refl, omega arith) refl (omega arith) (omega arith)

abbrev aborted_1 : Stream
aborted_1 = record stream_1 { is_aborted = true }

adjust_output_window_size-Adjusts_example :
    Adjusts usual_sizes
      (pos 0x7FFFFFFF)
      stream_1
      no_frames
      (adjust_output_window_size usual_sizes (pos 0x7FFFFFFF) stream_1 no_frames)
adjust_output_window_size-Adjusts_example =
    adjust_output_window_size-Adjusts usual_sizes (pos 0x7FFFFFFF) stream_1 no_frames refl

-- Three bytes are posted, and none is consumed yet.
posted : Input.Account
posted = record {
  stream =
      (post_input_frame (data_frame 1 true three_bytes)
        (Stream.create usual_sizes version_3 1 0 0 2 (pos 65536)) no_frames).0;
  received = 0 + data_frame_length (data_frame 1 true three_bytes);
  consumed = 0;
}

input_lem_example :
    (posted.stream.is_aborted ≡ true)
    ⊎ ((posted.stream.input_window_size
            + posted.stream.input_bytes_consumed
            + (posted.received - posted.consumed)
          ≡ 65536)
        × (posted.received - posted.consumed ≤ 65536)
        × (posted.stream.input_window_size ≤ 65536))
unfolding posted
input_lem_example =
    input_lem {sizes = usual_sizes} version_3 1 0 0 2 (pos 65536) refl
      (Input.next Input.here (Input.posts (data_frame 1 true three_bytes) no_frames))
