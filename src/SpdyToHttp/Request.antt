-- ===== src/SpdyToHttp/Request.antt =====
-- The frames of one stream, one after the other, as DecodeFrameVisitor of
-- src/mod_spdy/apache/filters/spdy_to_http_filter.cc gives them to the converter of
-- src/mod_spdy/common/spdy_to_http_converter.cc: it aborts the stream at the first error.
use mod_spdy.Common.{Bool, List, [], ◌∷◌, Option, none, some, ◌>>=◌}
use mod_spdy.Frame.{Bytes, HeaderBlock}
use mod_spdy.SpdyToHttp.{
  Status, spdy_converter_success, frame_before_syn_stream, frame_after_fin, extra_syn_stream,
  invalid_header_block, bad_request, Converter, convert_syn_stream_frame, convert_headers_frame,
  convert_data_frame,
}

pub data Input : Type 0 where
  takes_syn_stream : HeaderBlock → (fin : Bool) → Input
  takes_headers : HeaderBlock → (fin : Bool) → Input
  takes_data : Bytes → (fin : Bool) → Input

unfoldable pub convert : Input → Converter → Status × Converter
unfolding convert_syn_stream_frame convert_headers_frame convert_data_frame
convert (takes_syn_stream block fin) c = convert_syn_stream_frame block fin c
convert (takes_headers block fin) c = convert_headers_frame block fin c
convert (takes_data bytes fin) c = convert_data_frame bytes fin c

unfoldable pub on_success : Status × Converter → Option Converter
on_success (spdy_converter_success, c) = some c
on_success (frame_before_syn_stream, c) = none
on_success (frame_after_fin, c) = none
on_success (extra_syn_stream, c) = none
on_success (invalid_header_block, c) = none
on_success (bad_request, c) = none

-- The converter after the frames, the newest first, if all of them succeed.
unfoldable pub convert_all : List Input → Converter → Option Converter
unfolding convert on_success
convert_all [] c = some c
convert_all (input ∷ older) c = do c' ← convert_all older c; on_success (convert input c')
