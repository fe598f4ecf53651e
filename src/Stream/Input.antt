-- ===== src/Stream/Input.antt =====
-- The input flow control of a stream of spdy_stream.cc over any sequence of calls.
use mod_spdy.Common.{ℕ, ◌+◌, ◌-◌, ◌≤◌, ◌≡◌, ◌⊎◌, inr, ℤ, true, some, arith}
use mod_spdy.Frame.{Frame}
use mod_spdy.PriorityQueue.{PriorityQueue}
use mod_spdy.Protocol.{SpdyVersion, has_stream_windows, WindowSizes}
use mod_spdy.SharedWindow.{SharedWindow}
use mod_spdy.Stream.{
  Stream, create, abort_silently, data_frame_length, post_input_frame, on_input_data_consumed,
}

-- A stream with the bytes that its client has sent and its thread has consumed.
pub record Account : Type 0 where
  pub stream : Stream
  pub received : ℕ
  pub consumed : ℕ

-- The connection thread posts a frame; the stream thread consumes no more than has been received.
-- The output queue and the shared window may hold anything.
pub data Step (sizes : WindowSizes) (a : Account) : Account → Type 0 where
  posts :
      (f : Frame) (q : PriorityQueue Frame)
      → Step sizes a (record a {
        stream = (post_input_frame f a.stream q).0;
        received = a.received + data_frame_length f;
      })
  consumes :
      (size : ℕ) (q q' : PriorityQueue Frame) (w w' : SharedWindow) {s : Stream}
      → a.consumed + size ≤ a.received
      → on_input_data_consumed sizes size a.stream q w ≡ some (s, q', w')
      → Step sizes a (record a { stream = s; consumed = a.consumed + size })

pub data Reach (sizes : WindowSizes) (a : Account) : Account → Type 0 where
  here : Reach sizes a a
  next : {b c : Account} → Reach sizes a b → Step sizes b c → Reach sizes a c

-- For a stream with flow control: what the client may still send, what has been consumed and not
-- granted back, and what waits for the stream thread make up the initial window.
abbrev pub IsBalanced : WindowSizes → Account → Type 0
IsBalanced sizes a =
    (has_stream_windows a.stream.spdy_version ≡ true)
    × (a.consumed ≤ a.received)
    × ((a.stream.is_aborted ≡ true)
        ⊎ (a.stream.input_window_size + a.stream.input_bytes_consumed + (a.received - a.consumed)
            ≡ sizes.initial))

post_input_frame-spdy_version :
    (f : Frame) (s : Stream) (q : PriorityQueue Frame)
    → (post_input_frame f s q).0.spdy_version ≡ s.spdy_version
unfolding post_input_frame abort_silently
post_input_frame-spdy_version f s q = ground arith

posts-IsBalanced :
    (sizes : WindowSizes) (a : Account) (f : Frame) (q : PriorityQueue Frame)
    → IsBalanced sizes a
    → IsBalanced sizes (record a {
      stream = (post_input_frame f a.stream q).0;
      received = a.received + data_frame_length f;
    })
unfolding post_input_frame abort_silently
posts-IsBalanced sizes a f q v =
    (rw (post_input_frame-spdy_version f a.stream q) v.0, ground arith, ground arith)

consumes-IsBalanced :
    (sizes : WindowSizes) (a : Account) (size : ℕ) (q q' : PriorityQueue Frame)
    (w w' : SharedWindow) {s : Stream}
    → a.consumed + size ≤ a.received
    → on_input_data_consumed sizes size a.stream q w ≡ some (s, q', w')
    → IsBalanced sizes a
    → IsBalanced sizes (record a { stream = s; consumed = a.consumed + size })
unfolding on_input_data_consumed
consumes-IsBalanced sizes a size q q' w w' h e v = ground arith

abbrev pub new_account :
    WindowSizes → SpdyVersion → (id associated depth priority : ℕ) → ℤ → Account
new_account sizes version id associated depth priority window = record {
  stream = create sizes version id associated depth priority window;
  received = 0;
  consumed = 0;
}

Step-IsBalanced :
    {sizes : WindowSizes} {a b : Account} → Step sizes a b → IsBalanced sizes a → IsBalanced sizes b
Step-IsBalanced {sizes} {a} (posts f q) v = posts-IsBalanced sizes a f q v
Step-IsBalanced {sizes} {a} (consumes size q q' w w' h e) v =
    consumes-IsBalanced sizes a size q q' w w' h e v

Reach-IsBalanced :
    {sizes : WindowSizes} {a b : Account}
    → Reach sizes a b
    → IsBalanced sizes a
    → IsBalanced sizes b
Reach-IsBalanced here v = v
Reach-IsBalanced (next r st) v = Step-IsBalanced st (Reach-IsBalanced r v)

-- Over SPDY/3 and up, after any posted frames and any consumption of received data, in any order:
-- the stream is aborted, or the bytes that wait to be consumed, the bytes consumed but not yet
-- granted back and the window still open make up the initial window. So a client can never have
-- more than the initial window waiting in a running stream, and the window never passes its
-- initial size.
pub input_lem :
    {sizes : WindowSizes} (version : SpdyVersion) (id associated depth priority : ℕ) (window : ℤ)
    {a : Account}
    → has_stream_windows version ≡ true
    → Reach sizes (new_account sizes version id associated depth priority window) a
    → (a.stream.is_aborted ≡ true)
      ⊎ ((a.stream.input_window_size + a.stream.input_bytes_consumed + (a.received - a.consumed)
            ≡ sizes.initial)
          × (a.received - a.consumed ≤ sizes.initial)
          × (a.stream.input_window_size ≤ sizes.initial))
unfolding create
input_lem version id associated depth priority window h r =
    let v = Reach-IsBalanced r (h, (omega arith), inr (omega arith)) in ground arith
