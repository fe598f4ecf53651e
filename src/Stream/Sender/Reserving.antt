-- ===== src/Stream/Sender/Reserving.antt =====
-- What SendOutputDataFrame of spdy_stream.cc takes from the stream's output window.
use mod_spdy.Common.{
  ℕ, ◌<◌, ◌≡◌, refl, ℤ, pos, ◌≤ℤ◌, ◌<ℤ◌, ◌-ℤ◌, min_ℤ, leb_ℤ, Bool, false, length, arith,
}
use mod_spdy.Frame.{Bytes}
use mod_spdy.Protocol.{has_shared_window}
use mod_spdy.SharedWindow.{SharedWindow}
use mod_spdy.Stream.{Stream}
use mod_spdy.Stream.Sender.{reserve, deliver}

pub desired_range :
    (n : ℕ) (window : ℤ)
    → 0 < n
    → leb_ℤ window (pos 0) ≡ false
    → (pos 0 <ℤ min_ℤ (pos n) window) × (min_ℤ (pos n) window ≤ℤ pos n)
desired_range n window h go = ground arith

-- Over SPDY/3 the rest of the body follows at once.
pub reserve-deliver :
    (bytes : Bytes) (fin : Bool) (s : Stream) (w : SharedWindow)
    → has_shared_window s.spdy_version ≡ false
    → s.is_aborted ≡ false
    → leb_ℤ s.output_window_size (pos 0) ≡ false
    → reserve bytes fin s w ≡ (
        let desired = min_ℤ (pos (length bytes)) s.output_window_size in
        deliver bytes fin desired desired
          (record s { output_window_size = s.output_window_size -ℤ desired })
          w)
unfolding reserve
reserve-deliver bytes fin s w alone running go = rw (running, go, alone) refl
