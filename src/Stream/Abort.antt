-- ===== src/Stream/Abort.antt =====
-- An aborted stream of spdy_stream.cc.
use mod_spdy.Common.{ℕ, ℤ, ◌≡◌, Bool, true, none, some, arith}
use mod_spdy.Frame.{Bytes, HeaderBlock, Frame}
use mod_spdy.PriorityQueue.{PriorityQueue}
use mod_spdy.Protocol.{WindowSizes}
use mod_spdy.SharedWindow.{SharedWindow}
use mod_spdy.Stream.{
  Stream, post_input_frame, adjust_output_window_size, on_input_data_consumed,
  send_output_syn_stream, send_output_syn_reply, send_output_headers,
}
use mod_spdy.Stream.Sender.{begin}

-- Once a stream is aborted, every call leaves the stream, the output queue and the shared window as
-- they are: no frame is posted or sent, no window changes, and a call that sends data returns at
-- once. (A thread that is already inside such a call is another matter.)
pub aborted_inert :
    (sizes : WindowSizes) (s : Stream) (q : PriorityQueue Frame) (w : SharedWindow) (f : Frame)
    (delta : ℤ) (size : ℕ) (block : HeaderBlock) (fin : Bool) (bytes : Bytes)
    → s.is_aborted ≡ true
    → (post_input_frame f s q ≡ (s, q))
      × (adjust_output_window_size sizes delta s q ≡ (s, q))
      × (on_input_data_consumed sizes size s q w ≡ some (s, q, w))
      × (send_output_syn_stream block fin s q ≡ q)
      × (send_output_syn_reply block fin s q ≡ q)
      × (send_output_headers block fin s q ≡ q)
      × ((begin bytes fin s w).sent ≡ none)
unfolding post_input_frame adjust_output_window_size on_input_data_consumed send_output_syn_stream
    send_output_syn_reply send_output_headers begin
aborted_inert sizes s q w f delta size block fin bytes h = ground arith
