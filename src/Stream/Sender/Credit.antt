-- ===== src/Stream/Sender/Credit.antt =====
-- The bytes that SendOutputDataFrame takes from the stream's output window.
use mod_spdy.Common.{
  ℕ, ◌≤◌, ◌<◌, ◌≡◌, refl, sym, ◌∙◌, subst, ◌⊎◌, inl, inr, ℤ, pos, negsuc, ◌≤ℤ◌, ◌<ℤ◌, ◌+ℤ◌, ◌-ℤ◌,
  leb_ℤ, ltb_ℤ, min_ℤ, Bool, true, [], ◌∷◌, take, drop, length, length-take, if◌then◌else◌,
  Bool-cases, Option, none, some, arith,
}
use mod_spdy.Frame.{Bytes, Frame}
use mod_spdy.SharedWindow.{SharedWindow, request_output_quota}
use mod_spdy.Stream.{Stream, data_frame_length}
use mod_spdy.Protocol.{has_shared_window}
use mod_spdy.Stream.Sender.Reserving.{desired_range, reserve-deliver}
use mod_spdy.Stream.Sender.{
  Sender, finished, sending, requesting, acquired, Progress, loop_head, step, reserve, request,
  deliver, add_int32,
}

-- What the thread has taken from the window and not sent yet.
abbrev pub reserved : Sender → ℤ
reserved finished = pos 0
reserved (sending bytes) = pos 0
reserved (requesting bytes desired) = desired
reserved (acquired bytes desired amount) = desired

-- What it asks for is positive and no more than the data; what it gets is no more than that.
abbrev pub IsSound : Sender → Type 0
IsSound finished = Unit
IsSound (sending bytes) = 0 < length bytes
IsSound (requesting bytes desired) = (pos 0 <ℤ desired) × (desired ≤ℤ pos (length bytes))
IsSound (acquired bytes desired amount) = (amount ≤ℤ desired) × (desired ≤ℤ pos (length bytes))

abbrev sent_length : Option Frame → ℕ
sent_length none = 0
sent_length (some f) = data_frame_length f

-- The window with what is in hand and what is sent stays the same, except where the thread gives
-- up because the session is aborted.
abbrev pub Conserves : Sender → Stream → Progress → Type 0
Conserves c s p =
    (p.stream.output_window_size +ℤ reserved p.sender +ℤ pos (sent_length p.sent)
      ≡ s.output_window_size +ℤ reserved c)
    ⊎ ((p.sender ≡ finished) × (p.stream.is_aborted ≡ true) × (p.sent ≡ none))

-- AdjustOutputWindowSize has not raised the window by more than an int32 leaves for what is reserved.
abbrev pub Fits : Sender → Stream → Type 0
Fits c s = s.output_window_size +ℤ reserved c ≤ℤ pos 2147483647

loop_head-IsSound :
    (bytes : Bytes) → IsSound (loop_head bytes) × (reserved (loop_head bytes) ≡ pos 0)
loop_head-IsSound [] = (tt, refl)
loop_head-IsSound (b ∷ bs) = (omega arith, refl)

request-Conserves :
    (bytes : Bytes) (desired : ℤ) (s : Stream) (w : SharedWindow)
    → IsSound (requesting bytes desired)
    → IsSound (request bytes desired s w).sender
      × Conserves (requesting bytes desired) s (request bytes desired s w)
unfolding request request_output_quota ◌+ℤ◌
request-Conserves bytes desired s w h = ground arith

give_back :
    (window desired : ℤ) (n : ℕ)
    → pos n ≤ℤ desired
    → window +ℤ desired ≤ℤ pos 2147483647
    → (if ltb_ℤ (pos n) desired then add_int32 window (desired -ℤ pos n) else window)
        +ℤ pos 0
        +ℤ pos n
      ≡ window +ℤ desired
unfolding add_int32 ◌+ℤ◌ ◌-ℤ◌
give_back window desired n h k = ground arith

length-take_le : (n : ℕ) (bytes : Bytes) → n ≤ length bytes → length (take n bytes) ≡ n
length-take_le n bytes h = omega (arith, length-take n bytes)

deliver-Conserves :
    (fin : Bool) (bytes : Bytes) (desired amount : ℤ) (s : Stream) (w : SharedWindow)
    → IsSound (acquired bytes desired amount)
    → Fits (acquired bytes desired amount) s
    → IsSound (deliver bytes fin desired amount s w).sender
      × Conserves (acquired bytes desired amount) s (deliver bytes fin desired amount s w)
unfolding deliver data_frame_length
deliver-Conserves fin bytes desired (negsuc n) s w h k = ground arith
deliver-Conserves fin bytes desired (pos n) s w h k = elim (Bool-cases (leb_ℤ (pos n) (pos 0))) [
  | inl stop ↦ ground arith
  | inr go ↦
      let at_head = loop_head-IsSound (drop n bytes) in
      rw (go, length-take_le n bytes (omega arith), at_head.1)
        (at_head.0, inl (give_back s.output_window_size desired n h.0 k))
]

sub_add : (a d : ℤ) → a -ℤ d +ℤ d ≡ a +ℤ pos 0
unfolding ◌+ℤ◌ ◌-ℤ◌
sub_add a d = ground arith

back-Conserves :
    (bytes : Bytes) (desired : ℤ) (s : Stream) (p : Progress)
    → Conserves
        (acquired bytes desired desired)
        (record s { output_window_size = s.output_window_size -ℤ desired })
        p
    → Conserves (sending bytes) s p
back-Conserves bytes desired s p (inl e) = inl (e ∙ sub_add s.output_window_size desired)
back-Conserves bytes desired s p (inr h) = inr h

reserve-Conserves :
    (fin : Bool) (bytes : Bytes) (s : Stream) (w : SharedWindow)
    → IsSound (sending bytes)
    → Fits (sending bytes) s
    → IsSound (reserve bytes fin s w).sender × Conserves (sending bytes) s (reserve bytes fin s w)
unfolding reserve ◌+ℤ◌ ◌-ℤ◌
reserve-Conserves fin bytes s w h k =
    let desired = min_ℤ (pos (length bytes)) s.output_window_size in
    let s' = record s { output_window_size = s.output_window_size -ℤ desired } in
    elim (Bool-cases (has_shared_window s.spdy_version)) [
      | inl shared ↦ ground arith
      | inr alone ↦ elim (Bool-cases s.is_aborted) [
        | inl aborted ↦ ground arith
        | inr running ↦ elim (Bool-cases (leb_ℤ s.output_window_size (pos 0))) [
          | inl closed ↦ ground arith
          | inr go ↦
              let few = (desired_range (length bytes) s.output_window_size h go).1 in
              let (sound, same) =
                deliver-Conserves fin bytes desired desired s' w (omega arith, few)
                  (subst (λ n. n ≤ℤ pos 2147483647) (sym (sub_add s.output_window_size desired))
                    k) in
              rw (reserve-deliver bytes fin s w alone running go) (
                sound,
                back-Conserves bytes desired s (deliver bytes fin desired desired s' w) same,
              )
        ]
      ]
    ]

-- If what the thread has reserved fits back into the int32 of the output window, then no step of
-- SendOutputDataFrame loses window or sends data that the window did not allow: the window, with what
-- the thread has reserved and what it has just sent, stays the same, save that a thread which gets no
-- quota, as the session is aborted, aborts its stream and sends nothing. What is reserved and acquired
-- stays within the data.
pub step-Conserves :
    (fin : Bool) (c : Sender) (s : Stream) (w : SharedWindow)
    → IsSound c
    → Fits c s
    → IsSound (step fin c s w).sender × Conserves c s (step fin c s w)
unfolding step
step-Conserves fin finished s w h k = unfold ◌+ℤ◌ in ground arith
step-Conserves fin (sending bytes) s w h k = reserve-Conserves fin bytes s w h k
step-Conserves fin (requesting bytes desired) s w h k = request-Conserves bytes desired s w h
step-Conserves fin (acquired bytes desired amount) s w h k =
    deliver-Conserves fin bytes desired amount s w h k
