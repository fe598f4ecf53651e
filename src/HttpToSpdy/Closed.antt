-- ===== src/HttpToSpdy/Closed.antt =====
-- A response of http_to_spdy_converter.cc after its end.
use mod_spdy.Common.{
  ℕ, zero, suc, ◌≡◌, refl, ◌∙◌, Bool, true, false, List, [], ◌∷◌, ◌++◌, drop, length, arith,
}
use mod_spdy.Frame.{Bytes}
use mod_spdy.HttpToSpdy.{
  Converter, Call, status_line, leading_header, leading_headers_complete, body_data, flush, call,
  call_all, on_data, on_status_line, on_leading_header, on_leading_headers_complete,
  target_data_frame_bytes, send_data_frame, send_whole_frames, send_rest, send_data_if_necessary,
}

send_whole_frames-received :
    (target fuel : ℕ) (bytes : Bytes) (c : Converter)
    → c.sent_flag_fin ≡ true
    → ((send_whole_frames target fuel bytes c).1.received ≡ c.received)
      × ((send_whole_frames target fuel bytes c).1.sent_flag_fin ≡ true)
unfolding send_whole_frames send_data_frame
send_whole_frames-received target zero bytes c h = (refl, h)
send_whole_frames-received target (suc fuel) bytes c h =
    ground (arith, send_whole_frames-received target fuel (drop target bytes) c h)

send_data_if_necessary-received :
    (now fin : Bool) (c : Converter)
    → c.sent_flag_fin ≡ true
    → ((send_data_if_necessary now fin c).received ≡ c.received)
      × ((send_data_if_necessary now fin c).sent_flag_fin ≡ true)
unfolding send_data_if_necessary send_rest send_data_frame
send_data_if_necessary-received now fin c h = ground (
  arith,
  send_whole_frames-received target_data_frame_bytes (length c.data_buffer) c.data_buffer c h,
)

call-received :
    (k : Call) (c : Converter)
    → c.sent_flag_fin ≡ true
    → ((call k c).received ≡ c.received) × ((call k c).sent_flag_fin ≡ true)
unfolding call on_status_line on_leading_header on_leading_headers_complete on_data
call-received (status_line version status_code) c h = (refl, h)
call-received (leading_header key value) c h = ground arith
call-received (leading_headers_complete fin) c h = ground arith
call-received (body_data bytes fin) c h =
    send_data_if_necessary-received false fin (record c { data_buffer = c.data_buffer ++ bytes }) h
call-received flush c h = send_data_if_necessary-received true false c h

-- After FLAG_FIN nothing more is sent, whatever is called.
pub call_all-received :
    (calls : List Call) (c : Converter)
    → c.sent_flag_fin ≡ true
    → ((call_all calls c).received ≡ c.received) × ((call_all calls c).sent_flag_fin ≡ true)
unfolding call_all
call_all-received [] c h = (refl, h)
call_all-received (k ∷ older) c h =
    let (same, sent) = call_all-received older c h in
    let (same', sent') = call-received k (call_all older c) sent in (same' ∙ same, sent')
