-- ===== src/HttpToSpdy/Delivery.antt =====
-- What http_to_spdy_converter.cc makes of a body.
use mod_spdy.Common.{
  ℕ, zero, suc, ◌≤◌, ◌<◌, ◌≡◌, refl, sym, ap, ◌∙◌, Bool, true, false, not, List, [], ◌∷◌, ◌++◌,
  take, drop, take-append-drop, length, length-take, length-drop, arith,
}
use mathlib.Core.List.{append_assoc, append-nil}
use mod_spdy.Frame.{Bytes}
use mod_spdy.Protocol.{SpdyVersion}
use mod_spdy.HttpToSpdy.{
  Converter, Received, receives_syn_reply, receives_data, Call, status_line, leading_header,
  leading_headers_complete, body_data, flush, call, call_all, create, on_data, on_status_line,
  on_leading_header, on_leading_headers_complete, target_data_frame_bytes, send_data_frame,
  send_whole_frames, send_rest, send_data_if_necessary,
}

-- Does the call leave the response open?
abbrev pub is_open : Call → Bool
is_open (leading_headers_complete fin) = not fin
is_open (body_data bytes fin) = not fin
is_open _ = true

abbrev pub AllOpen : List Call → Type 0
AllOpen [] = Unit
AllOpen (k ∷ older) = (is_open k ≡ true) × AllOpen older

abbrev data_of : Call → Bytes
data_of (body_data bytes fin) = bytes
data_of _ = []

-- The body in a run of calls, the newest first.
abbrev pub all_data : List Call → Bytes
all_data [] = []
all_data (k ∷ older) = all_data older ++ data_of k

abbrev payload : Received → Bytes
payload (receives_data bytes fin) = bytes
payload _ = []

-- The body that the receiver has got.
abbrev pub received_bytes : List Received → Bytes
received_bytes [] = []
received_bytes (f ∷ older) = received_bytes older ++ payload f

-- Not the last of the response, and a data frame of at least one byte and at most the target size.
abbrev IsPlain : (target : ℕ) → Received → Type 0
IsPlain target (receives_syn_reply block fin) = fin ≡ false
IsPlain target (receives_data bytes fin) =
    (fin ≡ false) × (0 < length bytes) × (length bytes ≤ target)

abbrev pub AllPlain : (target : ℕ) → List Received → Type 0
AllPlain target [] = Unit
AllPlain target (f ∷ older) = IsPlain target f × AllPlain target older

-- The newest is the last data frame of the response.
abbrev pub EndsFlagged : (target : ℕ) → List Received → Type 0
EndsFlagged target (receives_data bytes fin ∷ older) =
    (fin ≡ true) × (length bytes ≤ target) × AllPlain target older
EndsFlagged target _ = ⊥

-- What the loop leaves of the data.
abbrev Leaves : (target : ℕ) → Converter → Bytes → Bytes × Converter → Type 0
Leaves target c bytes (rest, c') =
    (c'.sent_flag_fin ≡ false)
    × (received_bytes c'.received ++ rest ≡ received_bytes c.received ++ bytes)
    × AllPlain target c'.received
    × (length rest ≤ target)

send_whole_frames-Leaves :
    (target fuel : ℕ) (bytes : Bytes) (c : Converter)
    → 0 < target
    → length bytes ≤ fuel
    → c.sent_flag_fin ≡ false
    → AllPlain target c.received
    → Leaves target c bytes (send_whole_frames target fuel bytes c)
unfolding send_whole_frames send_data_frame
send_whole_frames-Leaves target zero bytes c t h unsent plain = (unsent, refl, plain, omega arith)
send_whole_frames-Leaves target (suc fuel) bytes c t h unsent plain =
    let next = record c { received = receives_data (take target bytes) false ∷ c.received } in
    ground (
      arith,
      take-append-drop target bytes,
      length-take target bytes,
      length-drop target bytes,
      append_assoc (received_bytes c.received) (take target bytes) (drop target bytes),
      send_whole_frames-Leaves target fuel (drop target bytes) next t,
    )

-- A response that goes on, with the body so far.
abbrev IsOpen : Converter → Bytes → Type 0
IsOpen c bytes =
    (c.sent_flag_fin ≡ false)
    × (received_bytes c.received ++ c.data_buffer ≡ bytes)
    × AllPlain target_data_frame_bytes c.received

-- The end of a response, with its body.
abbrev pub IsFinished : Converter → Bytes → Type 0
IsFinished c bytes =
    (c.sent_flag_fin ≡ true)
    × (received_bytes c.received ≡ bytes)
    × (c.data_buffer ≡ [])
    × EndsFlagged target_data_frame_bytes c.received

send_rest-IsOpen :
    (now : Bool) (c c' : Converter) (bytes rest : Bytes)
    → Leaves target_data_frame_bytes c bytes (rest, c')
    → IsOpen (send_rest now false (rest, c')) (received_bytes c.received ++ bytes)
unfolding send_rest send_data_frame
send_rest-IsOpen now c c' bytes [] l = ground (arith, append-nil (received_bytes c'.received))
send_rest-IsOpen now c c' bytes (b ∷ bs) l =
    ground (arith, append-nil (received_bytes c'.received ++ b ∷ bs))

send_data_if_necessary-IsOpen :
    (now : Bool) (c : Converter) (bytes : Bytes)
    → IsOpen c bytes
    → IsOpen (send_data_if_necessary now false c) bytes
unfolding send_data_if_necessary
send_data_if_necessary-IsOpen now c bytes h =
    let target = target_data_frame_bytes in
    let (rest, c') = send_whole_frames target (length c.data_buffer) c.data_buffer c in
    rw (sym h.1) (
      send_rest-IsOpen now c c' c.data_buffer rest (
        send_whole_frames-Leaves target (length c.data_buffer) c.data_buffer c (omega arith)
          (omega arith) h.0 h.2))

-- The last call of OnData takes all that is left.
send_data_if_necessary-IsFinished :
    (c : Converter) (bytes : Bytes)
    → IsOpen c bytes
    → IsFinished (send_data_if_necessary false true c) bytes
unfolding send_data_if_necessary send_rest send_data_frame
send_data_if_necessary-IsFinished c bytes h =
    let target = target_data_frame_bytes in
    let (rest, c') = send_whole_frames target (length c.data_buffer) c.data_buffer c in
    ground (
      arith,
      send_whole_frames-Leaves target (length c.data_buffer) c.data_buffer c (omega arith)
          (omega arith) h.0 h.2,
    )

call-IsOpen :
    (k : Call) (c : Converter) (bytes : Bytes)
    → is_open k ≡ true
    → IsOpen c bytes
    → IsOpen (call k c) (bytes ++ data_of k)
unfolding call on_status_line on_leading_header on_leading_headers_complete on_data
call-IsOpen (status_line version status_code) c bytes o h = ground (arith, append-nil bytes)
call-IsOpen (leading_header key value) c bytes o h = ground (arith, append-nil bytes)
call-IsOpen (leading_headers_complete fin) c bytes o h =
    ground (arith, append-nil bytes, append-nil (received_bytes c.received))
call-IsOpen (body_data new true) c bytes o h = cc
call-IsOpen (body_data new false) c bytes o h =
    send_data_if_necessary-IsOpen false (record c { data_buffer = c.data_buffer ++ new })
      (bytes ++ new)
      (
        h.0,
        sym (append_assoc (received_bytes c.received) c.data_buffer new) ∙ ap (λ x. x ++ new) h.1,
        h.2,
      )
call-IsOpen flush c bytes o h = rw (append-nil bytes) (send_data_if_necessary-IsOpen true c bytes h)

call_all-IsOpen :
    (version : SpdyVersion) (calls : List Call)
    → AllOpen calls
    → IsOpen (call_all calls (create version)) (all_data calls)
unfolding call_all create
call_all-IsOpen version [] h = ground arith
call_all-IsOpen version (k ∷ older) h =
    call-IsOpen k (call_all older (create version)) (all_data older) h.0
      (call_all-IsOpen version older h.1)

-- While a response goes on, whatever calls and flushes were made: the data frames received and what
-- waits in the buffer are the body so far, in order; no frame has FLAG_FIN, and each data frame
-- holds between one and 4096 bytes.
pub call_all-append :
    (version : SpdyVersion) (calls : List Call)
    → AllOpen calls
    → ((call_all calls (create version)).sent_flag_fin ≡ false)
      × (received_bytes (call_all calls (create version)).received
            ++ (call_all calls (create version)).data_buffer
          ≡ all_data calls)
      × AllPlain 4096 (call_all calls (create version)).received
call_all-append version calls h = call_all-IsOpen version calls h

-- When the last piece of the body comes, after any calls and flushes: the receiver has got the whole
-- body, in order; FLAG_FIN is on the newest data frame and on no other frame; no data frame holds
-- more than 4096 bytes.
pub on_data-IsFinished :
    (version : SpdyVersion) (calls : List Call) (bytes : Bytes)
    → AllOpen calls
    → IsFinished (on_data bytes true (call_all calls (create version))) (all_data calls ++ bytes)
unfolding on_data
on_data-IsFinished version calls bytes h =
    let c = call_all calls (create version) in
    let v = call_all-IsOpen version calls h in
    send_data_if_necessary-IsFinished (record c { data_buffer = c.data_buffer ++ bytes })
      (all_data calls ++ bytes)
      (
        v.0,
        sym (append_assoc (received_bytes c.received) c.data_buffer bytes)
            ∙ ap (λ x. x ++ bytes) v.1,
        v.2,
      )
