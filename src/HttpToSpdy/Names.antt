-- ===== src/HttpToSpdy/Names.antt =====
-- The header names that http_to_spdy_converter.cc lets through.
use mod_spdy.Common.{
  ℕ, zero, suc, take, drop, length, ◌++◌, ◌≡◌, refl, inl, inr, Bool-cases, Bool, true, false, List,
  [], ◌∷◌, none, arith,
}
use mod_spdy.Frame.{Bytes, HeaderBlock}
use mod_spdy.Protocol.{SpdyVersion, has_stream_windows}
use mod_spdy.Protocol.Http
use mod_spdy.Protocol.Spdy2
use mod_spdy.Protocol.Spdy3
use mod_spdy.Protocol.Text.{bytes_eq}
use mod_spdy.Protocol.Headers.{find, assign, lower_equals, is_invalid_spdy_response_header}
use mod_spdy.Protocol.Headers.Laws.{find-assign, find-merge_in_header}
use mod_spdy.HttpToSpdy.{
  Converter, Received, receives_syn_reply, receives_data, Call, status_line, leading_header,
  leading_headers_complete, body_data, flush, call, call_all, create, on_data, on_status_line,
  on_leading_header, on_leading_headers_complete, target_data_frame_bytes, send_data_frame,
  send_whole_frames, send_rest, send_data_if_necessary,
}

-- A header block without the names that SPDY forbids.
abbrev pub IsAllowed : HeaderBlock → Type 0
IsAllowed block =
    (find Http.connection block ≡ none)
    × (find Http.keep_alive block ≡ none)
    × (find Http.proxy_connection block ≡ none)
    × (find Http.transfer_encoding block ≡ none)

-- The blocks of the SYN_REPLY frames that were received.
abbrev pub AllAllowed : List Received → Type 0
AllAllowed [] = Unit
AllAllowed (receives_syn_reply block fin ∷ older) = IsAllowed block × AllAllowed older
AllAllowed (receives_data bytes fin ∷ older) = AllAllowed older

-- A name that is none of them.
abbrev IsOther : Bytes → Type 0
IsOther key =
    (bytes_eq key Http.connection ≡ false)
    × (bytes_eq key Http.keep_alive ≡ false)
    × (bytes_eq key Http.proxy_connection ≡ false)
    × (bytes_eq key Http.transfer_encoding ≡ false)

assign-IsAllowed :
    (key value : Bytes) (block : HeaderBlock)
    → IsOther key
    → IsAllowed block
    → IsAllowed (assign key value block)
assign-IsAllowed key value block o h = ground (
  arith,
  find-assign Http.connection key value block,
  find-assign Http.keep_alive key value block,
  find-assign Http.proxy_connection key value block,
  find-assign Http.transfer_encoding key value block,
)

magic-IsOther :
    IsOther Spdy2.version × IsOther Spdy2.status × IsOther Spdy3.version × IsOther Spdy3.status
unfolding bytes_eq
magic-IsOther = (
  (refl, refl, refl, refl),
  (refl, refl, refl, refl),
  (refl, refl, refl, refl),
  (refl, refl, refl, refl),
)

on_status_line-IsAllowed :
    (version status_code : Bytes) (c : Converter)
    → IsAllowed c.headers
    → IsAllowed (on_status_line version status_code c).headers
unfolding on_status_line
on_status_line-IsAllowed version status_code c h =
    let (v2, s2, v3, s3) = magic-IsOther in
    elim (Bool-cases (has_stream_windows c.spdy_version)) [
      | inl three ↦ rw three (
          assign-IsAllowed Spdy3.status status_code _ s3
            (assign-IsAllowed Spdy3.version version c.headers v3 h))
      | inr two ↦ rw two (
          assign-IsAllowed Spdy2.status status_code _ s2
            (assign-IsAllowed Spdy2.version version c.headers v2 h))
    ]

on_leading_header-IsAllowed :
    (key value : Bytes) (c : Converter)
    → IsAllowed c.headers
    → IsAllowed (on_leading_header key value c).headers
unfolding on_leading_header is_invalid_spdy_response_header lower_equals
on_leading_header-IsAllowed key value c h = ground (
  arith,
  find-merge_in_header Http.connection key value c.headers,
  find-merge_in_header Http.keep_alive key value c.headers,
  find-merge_in_header Http.proxy_connection key value c.headers,
  find-merge_in_header Http.transfer_encoding key value c.headers,
)

abbrev IsClean : Converter → Type 0
IsClean c = IsAllowed c.headers × AllAllowed c.received

send_data_frame-IsClean :
    (bytes : Bytes) (fin : Bool) (c : Converter) → IsClean c → IsClean (send_data_frame bytes fin c)
unfolding send_data_frame
send_data_frame-IsClean bytes fin c h = ground arith

send_whole_frames-IsClean :
    (target fuel : ℕ) (bytes : Bytes) (c : Converter)
    → IsClean c
    → IsClean (send_whole_frames target fuel bytes c).1
unfolding send_whole_frames
send_whole_frames-IsClean target zero bytes c h = h
send_whole_frames-IsClean target (suc fuel) bytes c h = ground (
  arith,
  send_whole_frames-IsClean target fuel (drop target bytes)
      (send_data_frame (take target bytes) false c)
      (send_data_frame-IsClean (take target bytes) false c h),
)

send_data_if_necessary-IsClean :
    (now fin : Bool) (c : Converter) → IsClean c → IsClean (send_data_if_necessary now fin c)
unfolding send_data_if_necessary send_rest
send_data_if_necessary-IsClean now fin c h =
    let (rest, c') =
      send_whole_frames target_data_frame_bytes (length c.data_buffer) c.data_buffer c in
    ground (
      arith,
      send_data_frame-IsClean rest fin c',
      send_whole_frames-IsClean target_data_frame_bytes (length c.data_buffer) c.data_buffer c h,
    )

call-IsClean : (k : Call) (c : Converter) → IsClean c → IsClean (call k c)
unfolding call on_leading_headers_complete on_data
call-IsClean (status_line version status_code) c h =
    (on_status_line-IsAllowed version status_code c h.0, h.1)
call-IsClean (leading_header key value) c h =
    (on_leading_header-IsAllowed key value c h.0, unfold on_leading_header in ground arith)
call-IsClean (leading_headers_complete fin) c h = unfold find in ground arith
call-IsClean (body_data bytes fin) c h =
    send_data_if_necessary-IsClean false fin (record c { data_buffer = c.data_buffer ++ bytes }) h
call-IsClean flush c h = send_data_if_necessary-IsClean true false c h

-- No SYN_REPLY has a header that SPDY forbids in a response (Connection, Keep-Alive,
-- Proxy-Connection or Transfer-Encoding), whatever headers the response has, in upper or lower case.
pub call_all-AllAllowed :
    (version : SpdyVersion) (calls : List Call)
    → IsAllowed (call_all calls (create version)).headers
      × AllAllowed (call_all calls (create version)).received
unfolding call_all create find
call_all-AllAllowed version [] = ground arith
call_all-AllAllowed version (k ∷ older) =
    call-IsClean k (call_all older (create version)) (call_all-AllAllowed version older)
