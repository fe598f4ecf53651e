-- ===== src/Stream/Sender/Race.antt =====
-- The gap between RequestOutputQuota and the locked end of the loop's body in SendOutputDataFrame.
use mod_spdy.Common.{
  ℕ, ◌≤◌, ◌<◌, ◌≡◌, ℤ, pos, ◌≤ℤ◌, ◌<ℤ◌, ◌+ℤ◌, ◌-ℤ◌, eqb_ℤ, leb_ℤ, ltb_ℤ, min_ℤ, length, take,
  pos_part, Bool, true, false, ◌&&◌, some, arith, refl, ap, ◌∙◌, if◌then◌else◌,
}
use mod_spdy.Frame.{Bytes, Frame, data_frame, RstStreamStatus}
use mod_spdy.PriorityQueue.{PriorityQueue}
use mod_spdy.Protocol.{WindowSizes, has_shared_window}
use mod_spdy.SharedWindow.{SharedWindow, Quota, waits, gets, request_output_quota}
use mod_spdy.Stream.{Stream, abort_with_rst_stream, adjust_output_window_size, abort_silently}
use mod_spdy.Stream.Sender.{
  Progress, idle, step, sending, requesting, acquired, reserve, request, deliver, add_int32,
}

-- The thread after it has reserved output window and then got quota of the shared window.
abbrev pub after_quota : Bool → Bytes → Stream → SharedWindow → Progress
after_quota fin bytes s w =
    let p = step fin (sending bytes) s w in step fin p.sender p.stream p.window

-- The quota that it gets.
abbrev pub quota : Bytes → Stream → SharedWindow → ℤ
quota bytes s w = min_ℤ (min_ℤ (pos (length bytes)) s.output_window_size) w.output_window_size

-- Nothing stops the thread.
abbrev pub MaySend : Bytes → Stream → SharedWindow → Type 0
MaySend bytes s w =
    (has_shared_window s.spdy_version ≡ true)
    × (0 < length bytes)
    × (s.is_aborted ≡ false)
    × (pos 0 <ℤ s.output_window_size)
    × (w.is_aborted ≡ false)
    × (pos 0 <ℤ w.output_window_size)

abbrev pub desired_of : Bytes → Stream → ℤ
desired_of bytes s = min_ℤ (pos (length bytes)) s.output_window_size

leb-positive : (n : ℤ) → pos 0 <ℤ n → leb_ℤ n (pos 0) ≡ false
leb-positive n h = ground arith

reserve-requesting :
    (fin : Bool) (bytes : Bytes) (s : Stream) (w : SharedWindow)
    → MaySend bytes s w
    → reserve bytes fin s w
      ≡ idle
          (requesting bytes (desired_of bytes s))
          (record s { output_window_size = s.output_window_size -ℤ desired_of bytes s })
          w
unfolding reserve
reserve-requesting fin bytes s w (shared, some_bytes, running, open_window, live, some_quota) =
    rw (running, leb-positive s.output_window_size open_window, shared) refl

request_output_quota-gets :
    (desired : ℤ) (w : SharedWindow)
    → w.is_aborted ≡ false
    → pos 0 <ℤ w.output_window_size
    → request_output_quota desired w
      ≡ gets (min_ℤ desired w.output_window_size) (record w {
        output_window_size = w.output_window_size -ℤ min_ℤ desired w.output_window_size;
      })
unfolding request_output_quota
request_output_quota-gets desired w live some_quota =
    let amount = min_ℤ desired w.output_window_size in
    let w' = record w { output_window_size = w.output_window_size -ℤ amount } in
    let tested : Bool → Quota = λ b. if b then waits else gets amount w' in
    ap (λ b. if b then gets (pos 0) w else tested (leb_ℤ w.output_window_size (pos 0))) live
    ∙ ap tested (leb-positive w.output_window_size some_quota)

request-acquired :
    (bytes : Bytes) (desired : ℤ) (s : Stream) (w : SharedWindow)
    → w.is_aborted ≡ false
    → pos 0 <ℤ w.output_window_size
    → request bytes desired s w
      ≡ idle (acquired bytes desired (min_ℤ desired w.output_window_size)) s (record w {
        output_window_size = w.output_window_size -ℤ min_ℤ desired w.output_window_size;
      })
unfolding request
request-acquired bytes desired s w live some_quota =
    rw (request, request_output_quota-gets desired w live some_quota) refl

after_quota-acquired :
    (fin : Bool) (bytes : Bytes) (s : Stream) (w : SharedWindow)
    → MaySend bytes s w
    → after_quota fin bytes s w
      ≡ idle
          (acquired bytes (desired_of bytes s) (quota bytes s w))
          (record s { output_window_size = s.output_window_size -ℤ desired_of bytes s })
          (record w { output_window_size = w.output_window_size -ℤ quota bytes s w })
unfolding step
after_quota-acquired fin bytes s w h = rw (reserve-requesting fin bytes s w h) (
    request-acquired bytes (desired_of bytes s)
      (record s { output_window_size = s.output_window_size -ℤ desired_of bytes s }) w h.4 h.5)

quota-positive :
    (bytes : Bytes) (s : Stream) (w : SharedWindow)
    → MaySend bytes s w
    → (n : ℕ) × (quota bytes s w ≡ pos n) × (0 < n) × (n ≤ length bytes)
quota-positive bytes s w (shared, some_bytes, running, open_window, live, some_quota) =
    (pos_part (quota bytes s w), ground arith, ground arith, ground arith)

-- The step after RequestOutputQuota, on a stream that other threads have changed meanwhile.
abbrev pub delivered : Bool → Bytes → (Stream → Stream) → Stream → SharedWindow → Progress
delivered fin bytes meanwhile s w =
    let p = after_quota fin bytes s w in step fin p.sender (meanwhile p.stream) p.window

-- If SendOutputDataFrame over SPDY/3.1 has data and nothing stops it, and another thread aborts the
-- stream with a RST_STREAM while it is in RequestOutputQuota, then the thread sends a DATA frame with
-- the first bytes of the data after the RST_STREAM, against the DCHECK of SendOutputFrame.
pub delivered-abort_with_rst_stream :
    (status : RstStreamStatus) (q : PriorityQueue Frame) (fin : Bool) (bytes : Bytes) (s : Stream)
    (w : SharedWindow)
    → MaySend bytes s w
    → (let p = delivered fin bytes (λ t. (abort_with_rst_stream status t q).0) s w in
        (p.stream.is_aborted ≡ true)
        × (p.checks ≡ false)
        × ((n : ℕ) × (last : Bool) × (0 < n)
            × (n ≤ length bytes)
            × (p.sent ≡ some (data_frame s.stream_id last (take n bytes)))))
unfolding step deliver abort_with_rst_stream abort_silently
delivered-abort_with_rst_stream status q fin bytes s w h =
    let (n, is, some_bytes, few) = quota-positive bytes s w h in
    rw (after_quota-acquired fin bytes s w h, is, leb-positive (pos n) (omega arith))
      (refl, refl, (n, fin && eqb_ℤ (pos n) (pos (length bytes)), some_bytes, few, refl))

-- Raising the window of a stream by AdjustOutputWindowSize; the queue does not matter.
abbrev pub raised : WindowSizes → ℤ → PriorityQueue Frame → Stream → Stream
raised sizes delta q t = (adjust_output_window_size sizes delta t q).0

raised-maximum :
    (sizes : WindowSizes) (q : PriorityQueue Frame) (t : Stream)
    → sizes.maximum ≡ 2147483647
    → t.is_aborted ≡ false
    → ((raised sizes (pos 2147483647 -ℤ t.output_window_size) q t).output_window_size
        ≡ pos 2147483647)
      × ((raised sizes (pos 2147483647 -ℤ t.output_window_size) q t).is_aborted ≡ false)
unfolding adjust_output_window_size ◌+ℤ◌ ◌-ℤ◌
raised-maximum sizes q t largest running = ground arith

add_int32-negative :
    (unused : ℤ)
    → pos 0 <ℤ unused
    → unused ≤ℤ pos 2147483647
    → add_int32 (pos 2147483647) unused <ℤ pos 0
unfolding add_int32 ◌+ℤ◌ ◌-ℤ◌
add_int32-negative unused h k = ground arith

ltb-less : (m n : ℤ) → m <ℤ n → ltb_ℤ m n ≡ true
ltb-less m n h = ground arith

unused_range :
    (desired amount : ℤ)
    → pos 0 <ℤ amount
    → amount <ℤ desired
    → desired ≤ℤ pos 2147483647
    → (pos 0 <ℤ (desired -ℤ amount)) × ((desired -ℤ amount) ≤ℤ pos 2147483647)
unfolding ◌+ℤ◌ ◌-ℤ◌
unused_range desired amount h k l = ground arith

quota_range :
    (bytes : Bytes) (s : Stream) (w : SharedWindow)
    → MaySend bytes s w
    → s.output_window_size ≤ℤ pos 2147483647
    → w.output_window_size <ℤ desired_of bytes s
    → (pos 0 <ℤ quota bytes s w)
      × (quota bytes s w <ℤ desired_of bytes s)
      × (desired_of bytes s ≤ℤ pos 2147483647)
quota_range bytes s w (shared, some_bytes, running, open_window, live, some_quota) fits less =
    (ground arith, ground arith, ground arith)

deliver-negative :
    (fin : Bool) (bytes : Bytes) (desired amount : ℤ) (t : Stream) (w : SharedWindow)
    → pos 0 <ℤ amount
    → amount <ℤ desired
    → desired ≤ℤ pos 2147483647
    → t.output_window_size ≡ pos 2147483647
    → t.is_aborted ≡ false
    → ((deliver bytes fin desired amount t w).stream.output_window_size <ℤ pos 0)
      × ((deliver bytes fin desired amount t w).stream.is_aborted ≡ false)
unfolding deliver
deliver-negative fin bytes desired amount t w h k l full running =
    let (more, few) = unused_range desired amount h k l in
    rw (leb-positive amount h, ltb-less amount desired k, full)
      (add_int32-negative (desired -ℤ amount) more few, running)

-- If SendOutputDataFrame over SPDY/3.1 has reserved output window and gets quota for a part of it only,
-- and AdjustOutputWindowSize has raised the window to the largest int32 meanwhile, then the addition that
-- gives the rest back overflows: on a machine where int32 wraps around, the window is negative.
pub delivered-adjust_output_window_size :
    (sizes : WindowSizes) (q : PriorityQueue Frame) (fin : Bool) (bytes : Bytes) (s : Stream)
    (w : SharedWindow)
    → MaySend bytes s w
    → sizes.maximum ≡ 2147483647
    → s.output_window_size ≤ℤ pos 2147483647
    → w.output_window_size <ℤ desired_of bytes s
    → (let delta = pos 2147483647 -ℤ (s.output_window_size -ℤ desired_of bytes s) in
        let p = delivered fin bytes (raised sizes delta q) s w in
        (p.stream.output_window_size <ℤ pos 0) × (p.stream.is_aborted ≡ false))
unfolding step
delivered-adjust_output_window_size sizes q fin bytes s w h largest fits less =
    let t = record s { output_window_size = s.output_window_size -ℤ desired_of bytes s } in
    let (some_quota, part, few) = quota_range bytes s w h fits less in
    let (full, running) = raised-maximum sizes q t largest h.2 in
    rw (after_quota-acquired fin bytes s w h) (
      deliver-negative fin bytes (desired_of bytes s) (quota bytes s w)
        (raised sizes (pos 2147483647 -ℤ t.output_window_size) q t)
        (record w { output_window_size = w.output_window_size -ℤ quota bytes s w }) some_quota part
        few full running)
