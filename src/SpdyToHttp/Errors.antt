-- ===== src/SpdyToHttp/Errors.antt =====
-- Frames that spdy_to_http_converter.cc refuses.
use mod_spdy.Common.{◌≡◌, refl, Bool, Option, none, some}
use mod_spdy.Frame.{Bytes, HeaderBlock}
use mod_spdy.SpdyToHttp.{
  ConverterState, no_frames_yet, received_syn_stream, received_data, received_flag_fin, Status,
  spdy_converter_success, frame_before_syn_stream, frame_after_fin, extra_syn_stream, bad_request,
  Converter, generate_request_line, convert_first, convert_syn_stream_frame, convert_headers_frame,
  convert_data_frame, convert_data,
}
use mod_spdy.SpdyToHttp.Request.{
  Input, takes_syn_stream, takes_headers, takes_data, convert, on_success,
}

-- A frame after the SYN_STREAM, by the converter's state.
abbrev pub later_error : ConverterState → Status
later_error no_frames_yet = frame_before_syn_stream
later_error received_syn_stream = spdy_converter_success
later_error received_data = spdy_converter_success
later_error received_flag_fin = frame_after_fin

-- The error that a refused frame gets.
abbrev pub error_of : Input → ConverterState → Status
error_of (takes_syn_stream block fin) no_frames_yet = bad_request
error_of (takes_syn_stream block fin) _ = extra_syn_stream
error_of (takes_headers block fin) s = later_error s
error_of (takes_data bytes fin) s = later_error s

-- The error, and a converter whose visitor has not been called.
abbrev Refuses : Status × Converter → Status → Converter → Type 0
Refuses r error c =
    (r.0 ≡ error)
    × (r.1.visitor ≡ c.visitor)
    × (r.1.trailing_headers ≡ c.trailing_headers)
    × (r.1.use_chunking ≡ c.use_chunking)

convert_first-Refuses :
    (block : HeaderBlock) (fin : Bool) (line : Option (Bytes × Bytes × Bytes)) (c : Converter)
    → on_success (convert_first block fin line c) ≡ none
    → Refuses (convert_first block fin line c) bad_request c
unfolding convert_first on_success
convert_first-Refuses block fin none c h = (refl, refl, refl, refl)
convert_first-Refuses block fin (some (method, path, version)) c h = cc

convert-at :
    (s : ConverterState) (input : Input) (c : Converter)
    → on_success (convert input (record c { state = s })) ≡ none
    → Refuses (convert input (record c { state = s })) (error_of input s) c
unfolding convert convert_syn_stream_frame convert_headers_frame convert_data_frame on_success
    convert_data
convert-at no_frames_yet (takes_syn_stream block fin) c h =
    convert_first-Refuses block fin (generate_request_line c.spdy_version block)
      (record c { state = received_syn_stream }) h
convert-at no_frames_yet (takes_headers block fin) c h = (refl, refl, refl, refl)
convert-at no_frames_yet (takes_data bytes fin) c h = (refl, refl, refl, refl)
convert-at received_syn_stream (takes_syn_stream block fin) c h = (refl, refl, refl, refl)
convert-at received_syn_stream (takes_headers block fin) c h = cc
convert-at received_syn_stream (takes_data bytes fin) c h = cc
convert-at received_data (takes_syn_stream block fin) c h = (refl, refl, refl, refl)
convert-at received_data (takes_headers block fin) c h = cc
convert-at received_data (takes_data bytes fin) c h = cc
convert-at received_flag_fin (takes_syn_stream block fin) c h = (refl, refl, refl, refl)
convert-at received_flag_fin (takes_headers block fin) c h = (refl, refl, refl, refl)
convert-at received_flag_fin (takes_data bytes fin) c h = (refl, refl, refl, refl)

-- If a frame is not converted with success, then the visitor is not called, the trailing headers and
-- the choice of chunking stay as they are, and the status is: BAD_REQUEST for a SYN_STREAM that is the
-- first frame, EXTRA_SYN_STREAM for any other SYN_STREAM, and for a HEADERS or DATA frame
-- FRAME_BEFORE_SYN_STREAM at the start and FRAME_AFTER_FIN after a FLAG_FIN.
pub convert-refused :
    (input : Input) (c : Converter)
    → on_success (convert input c) ≡ none
    → ((convert input c).0 ≡ error_of input c.state)
      × ((convert input c).1.visitor ≡ c.visitor)
      × ((convert input c).1.trailing_headers ≡ c.trailing_headers)
      × ((convert input c).1.use_chunking ≡ c.use_chunking)
convert-refused input c h = convert-at c.state input c h
