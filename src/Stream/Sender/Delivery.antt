-- ===== src/Stream/Sender/Delivery.antt =====
-- What SendOutputDataFrame of spdy_stream.cc sends, whatever the other threads do meanwhile.
use mod_spdy.Common.{
  ℕ, zero, suc, ◌≤◌, ◌<◌, ◌≡◌, ◌≢◌, refl, sym, ap, ◌∙◌, ◌⊎◌, inl, inr, ℤ, pos, ◌≤ℤ◌, ◌<ℤ◌, ◌-ℤ◌,
  min_ℤ, negsuc, leb_ℤ, eqb_ℤ, Bool, false, not, ◌&&◌, List, [], ◌∷◌, ◌++◌, take, drop,
  take-append-drop, length, Bool-cases, Option, none, some, arith,
}
use mathlib.Core.List.{append_assoc, append-nil}
use mod_spdy.Frame.{Bytes, Frame, data_frame, no_bytes}
use mod_spdy.Protocol.{has_stream_windows, has_shared_window}
use mod_spdy.Stream.Sender.Reserving.{desired_range, reserve-deliver}
use mod_spdy.SharedWindow.{SharedWindow, request_output_quota}
use mod_spdy.Stream.{Stream}
use mod_spdy.Stream.Sender.{
  Sender, finished, sending, requesting, acquired, Progress, loop_head, begin, step, reserve,
  request, deliver,
}

abbrev payload : Frame → Bytes
payload (data_frame id fin bytes) = bytes
payload _ = []

abbrev flag : Frame → Bool
flag (data_frame id fin bytes) = fin
flag _ = false

-- The bytes of a log of frames, the newest frame first.
abbrev pub sent_bytes : List Frame → Bytes
sent_bytes [] = []
sent_bytes (f ∷ older) = sent_bytes older ++ payload f

abbrev log_with : Option Frame → List Frame → List Frame
log_with none log = log
log_with (some f) log = f ∷ log

abbrev AllUnflagged : List Frame → Type 0
AllUnflagged [] = Unit
AllUnflagged (f ∷ older) = (flag f ≡ false) × AllUnflagged older

-- Only the newest frame may carry FLAG_FIN: it does if that was asked for and nothing is left.
abbrev pub Flags : Bool → Bytes → List Frame → Type 0
Flags fin rest [] = Unit
Flags fin rest (f ∷ older) = (flag f ≡ (fin && no_bytes rest)) × AllUnflagged older

-- `begin` or a step with a stream and a window that may hold anything: the other threads have had
-- their turn. `clean` tells that neither was aborted when the thread looked.
pub data Reach (bytes : Bytes) (fin : Bool) : Bool → Sender → List Frame → Type 0 where
  begins :
      (s : Stream) (w : SharedWindow)
      → Reach bytes fin
          (not s.is_aborted)
          (begin bytes fin s w).sender
          (log_with (begin bytes fin s w).sent [])
  steps :
      {clean : Bool} {c : Sender} {log : List Frame} (s : Stream) (w : SharedWindow)
      → Reach bytes fin clean c log
      → Reach bytes fin
          (clean && (not s.is_aborted && not w.is_aborted))
          (step fin c s w).sender
          (log_with (step fin c s w).sent log)

-- What a thread has in hand when `rest` is still to be sent.
abbrev pub Holds : Bool → Bytes → Sender → Type 0
Holds clean rest finished = (rest ≡ []) ⊎ (clean ≡ false)
Holds clean rest (sending bytes) = (bytes ≡ rest) × (0 < length bytes)
Holds clean rest (requesting bytes desired) =
    (bytes ≡ rest) × (pos 0 <ℤ desired) × (desired ≤ℤ pos (length bytes))
Holds clean rest (acquired bytes desired amount) =
    (bytes ≡ rest)
    × (desired ≤ℤ pos (length bytes))
    × (amount ≤ℤ desired)
    × ((pos 0 <ℤ amount) ⊎ (clean ≡ false))

-- What a step does to the bytes that are still to be sent.
abbrev Advances : Bool → Bool → Bytes → Progress → Type 0
Advances fin clean rest p =
    (rest' : Bytes) × Holds clean rest' p.sender
    × (((p.sent ≡ none) × (rest' ≡ rest))
        ⊎ ((id : ℕ) × (bytes : Bytes) × (p.sent
              ≡ some (data_frame id (fin && no_bytes rest') bytes))
            × (bytes ++ rest' ≡ rest)
            × (rest ≢ [])))

loop_head-Holds : (clean : Bool) (bytes : Bytes) → Holds clean bytes (loop_head bytes)
loop_head-Holds clean [] = inl refl
loop_head-Holds clean (b ∷ bs) = (refl, omega arith)

no_bytes-drop :
    (n : ℕ) (bytes : Bytes)
    → n ≤ length bytes
    → eqb_ℤ (pos n) (pos (length bytes)) ≡ no_bytes (drop n bytes)
no_bytes-drop zero [] h = refl
no_bytes-drop zero (b ∷ bs) h = ground arith
no_bytes-drop (suc n) [] h = absurd (omega arith)
no_bytes-drop (suc n) (b ∷ bs) h = ground (arith, no_bytes-drop n bs)

positive : (n : ℕ) → leb_ℤ (pos n) (pos 0) ≡ false → 0 < n
positive n h = ground arith

deliver-Advances :
    (fin clean : Bool) (bytes : Bytes) (desired amount : ℤ) (s : Stream) (w : SharedWindow)
    → Holds clean bytes (acquired bytes desired amount)
    → Advances fin
        (clean && (not s.is_aborted && not w.is_aborted))
        bytes
        (deliver bytes fin desired amount s w)
unfolding deliver
deliver-Advances fin clean bytes desired (negsuc n) s w h = (bytes, ground arith, ground arith)
deliver-Advances fin clean bytes desired (pos n) s w h = elim (Bool-cases (leb_ℤ (pos n) (pos 0))) [
  | inl stop ↦ (bytes, ground arith, ground arith)
  | inr go ↦ (
    drop n bytes,
    rw go (loop_head-Holds _ (drop n bytes)),
    inr (
      s.stream_id,
      take n bytes,
      ground (arith, no_bytes-drop n bytes),
      take-append-drop n bytes,
      (λ e. omega (arith, ap length e, positive n go)),
    ),
  )
]

reserve-Advances :
    (fin clean : Bool) (bytes : Bytes) (s : Stream) (w : SharedWindow)
    → 0 < length bytes
    → Advances fin (clean && (not s.is_aborted && not w.is_aborted)) bytes (reserve bytes fin s w)
unfolding reserve
reserve-Advances fin clean bytes s w h =
    let desired = min_ℤ (pos (length bytes)) s.output_window_size in
    elim (Bool-cases (has_shared_window s.spdy_version)) [
      | inl shared ↦ (bytes, ground arith, ground arith)
      | inr alone ↦ elim (Bool-cases s.is_aborted) [
        | inl aborted ↦ (bytes, ground arith, ground arith)
        | inr running ↦ elim (Bool-cases (leb_ℤ s.output_window_size (pos 0))) [
          | inl closed ↦ (bytes, ground arith, ground arith)
          | inr go ↦
              let (some_bytes, few) = desired_range (length bytes) s.output_window_size h go in
              rw (reserve-deliver bytes fin s w alone running go) (
                deliver-Advances fin clean bytes desired desired
                  (record s { output_window_size = s.output_window_size -ℤ desired }) w
                  (refl, few, omega arith, inl some_bytes))
        ]
      ]
    ]

request-Advances :
    (fin clean : Bool) (bytes : Bytes) (desired : ℤ) (s : Stream) (w : SharedWindow)
    → pos 0 <ℤ desired
    → desired ≤ℤ pos (length bytes)
    → Advances fin
        (clean && (not s.is_aborted && not w.is_aborted))
        bytes
        (request bytes desired s w)
unfolding request request_output_quota
request-Advances fin clean bytes desired s w h k = (bytes, ground arith, ground arith)

step-Advances :
    (fin clean : Bool) (rest : Bytes) (c : Sender) (s : Stream) (w : SharedWindow)
    → Holds clean rest c
    → Advances fin (clean && (not s.is_aborted && not w.is_aborted)) rest (step fin c s w)
unfolding step
step-Advances fin clean rest finished s w h = (rest, ground arith, ground arith)
step-Advances fin clean rest (sending bytes) s w h =
    rw (sym h.0) (reserve-Advances fin clean bytes s w h.1)
step-Advances fin clean rest (requesting bytes desired) s w h =
    rw (sym h.0) (request-Advances fin clean bytes desired s w h.1 h.2)
step-Advances fin clean rest (acquired bytes desired amount) s w h =
    rw (sym h.0) (deliver-Advances fin clean bytes desired amount s w (refl, h.1, h.2, h.3))

begin-Advances :
    (fin : Bool) (bytes : Bytes) (s : Stream) (w : SharedWindow)
    → (rest' : Bytes) × Holds (not s.is_aborted) rest' (begin bytes fin s w).sender
      × (sent_bytes (log_with (begin bytes fin s w).sent []) ++ rest' ≡ bytes)
      × Flags fin rest' (log_with (begin bytes fin s w).sent [])
unfolding begin
begin-Advances fin [] s w = ([], ground arith, ground arith, ground arith)
begin-Advances fin (b ∷ bs) s w = elim (Bool-cases s.is_aborted) [
  | inl aborted ↦ (b ∷ bs, ground arith, ground arith, ground arith)
  | inr running ↦ elim (Bool-cases (has_stream_windows s.spdy_version)) [
    | inl windows ↦ (b ∷ bs, ground arith, ground arith, ground arith)
    | inr unlimited ↦ ([], ground arith, ground (arith, append-nil (b ∷ bs)), ground arith)
  ]
]

Flags-unflagged :
    (fin : Bool) (rest : Bytes) (log : List Frame)
    → rest ≢ []
    → Flags fin rest log
    → AllUnflagged log
Flags-unflagged fin rest [] ne h = tt
Flags-unflagged fin [] (f ∷ older) ne h = absurd (ne refl)
Flags-unflagged fin (b ∷ bs) (f ∷ older) ne h = ground arith

log_with-sent :
    (fin : Bool) (rest rest' bytes : Bytes) (log : List Frame) (sent : Option Frame)
    → sent_bytes log ++ rest ≡ bytes
    → Flags fin rest log
    → ((sent ≡ none) × (rest' ≡ rest))
      ⊎ ((id : ℕ) × (chunk : Bytes) × (sent ≡ some (data_frame id (fin && no_bytes rest') chunk))
          × (chunk ++ rest' ≡ rest)
          × (rest ≢ []))
    → (sent_bytes (log_with sent log) ++ rest' ≡ bytes) × Flags fin rest' (log_with sent log)
log_with-sent fin rest rest' bytes log sent e fl (inl (n, same)) = rw (n, same) (e, fl)
log_with-sent fin rest rest' bytes log sent e fl (inr (id, chunk, is, split, ne)) = rw is (
  append_assoc (sent_bytes log) chunk rest' ∙ (rw split e),
  (refl, Flags-unflagged fin rest log ne fl),
)

-- Whatever the other threads do between the steps of SendOutputDataFrame, and wherever the thread
-- stands: the frames sent so far, in order, and the bytes `rest` that are still to be sent make up
-- the data; FLAG_FIN is on the newest frame only, if it was asked for and nothing is left; and a
-- thread that has returned has sent everything, unless its stream or the session was aborted.
pub sent_bytes-append :
    {bytes : Bytes} {fin clean : Bool} {c : Sender} {log : List Frame}
    → Reach bytes fin clean c log
    → (rest : Bytes) × Holds clean rest c × (sent_bytes log ++ rest ≡ bytes) × Flags fin rest log
sent_bytes-append {bytes} {fin} (begins s w) = begin-Advances fin bytes s w
sent_bytes-append {bytes} {fin} (steps {clean} {c} {log} s w r) =
    let (rest, holds, e, fl) = sent_bytes-append r in
    let (rest', holds', advance) = step-Advances fin clean rest c s w holds in
    let (whole, flags) =
      log_with-sent fin rest rest' bytes log (step fin c s w).sent e fl advance in
    (rest', holds', whole, flags)
