-- ===== src/Stream/Window.antt =====
-- The output window of a stream of spdy_stream.cc under the client's changes.
use mod_spdy.Common.{◌≤◌, ◌≡◌, ◌⊎◌, ℤ, pos_part, neg_part, ◌+ℤ◌, false, arith}
use mod_spdy.Frame.{Frame, rst_stream, flow_control_error}
use mod_spdy.PriorityQueue.{PriorityQueue, top_priority, insert}
use mod_spdy.Protocol.{WindowSizes}
use mod_spdy.Stream.{Stream, abort_silently, adjust_output_window_size}

-- Within the range of the protocol, on both sides of 0.
abbrev pub InRange : WindowSizes → ℤ → Type 0
InRange sizes n = (pos_part n ≤ sizes.maximum) × (neg_part n ≤ sizes.maximum)

-- What AdjustOutputWindowSize does to a running stream: the sum is in range, is the new size, and
-- no frame is sent; or it is out of range, the stream is aborted, and a RST_STREAM with
-- FLOW_CONTROL_ERROR is sent at top priority.
abbrev pub Adjusts :
    WindowSizes → ℤ → Stream → PriorityQueue Frame → Stream × PriorityQueue Frame → Type 0
Adjusts sizes delta s q (s', q') =
    (InRange sizes (s.output_window_size +ℤ delta)
      × (s' ≡ record s { output_window_size = s.output_window_size +ℤ delta })
      × (q' ≡ q))
    ⊎ ((¬ InRange sizes (s.output_window_size +ℤ delta))
        × (s' ≡ abort_silently s)
        × (q' ≡ insert top_priority (rst_stream s.stream_id flow_control_error) q))

-- AdjustOutputWindowSize on a stream that is not aborted, for every delta.
pub adjust_output_window_size-Adjusts :
    (sizes : WindowSizes) (delta : ℤ) (s : Stream) (q : PriorityQueue Frame)
    → s.is_aborted ≡ false
    → Adjusts sizes delta s q (adjust_output_window_size sizes delta s q)
unfolding adjust_output_window_size ◌+ℤ◌
adjust_output_window_size-Adjusts sizes delta s q h = ground arith

-- The output window stays in range whatever the client asks for.
pub adjust_output_window_size-InRange :
    (sizes : WindowSizes) (delta : ℤ) (s : Stream) (q : PriorityQueue Frame)
    → InRange sizes s.output_window_size
    → InRange sizes (adjust_output_window_size sizes delta s q).0.output_window_size
unfolding adjust_output_window_size abort_silently ◌+ℤ◌
adjust_output_window_size-InRange sizes delta s q h = ground arith
