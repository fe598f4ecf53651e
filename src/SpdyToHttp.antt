-- ===== src/SpdyToHttp.antt =====
-- From SPDY frames to the calls of a HttpRequestVisitorInterface: SpdyToHttpConverter of
-- src/mod_spdy/common/spdy_to_http_converter.cc. The visitor's calls are recorded, the oldest first.
pub mod Values
pub mod RoundTrip
pub mod Errors
pub mod Body
pub mod Delivery
pub mod Request
use mod_spdy.Common.{
  ◌==◌, Bool, true, false, not, ◌&&◌, ◌||◌, List, [], ◌∷◌, ◌++◌, map, Option, none, some,
  if◌then◌else◌, ◌>>=◌,
}
use mod_spdy.Frame.{Bytes, HeaderBlock, no_bytes}
use mod_spdy.Protocol.{SpdyVersion, has_stream_windows}
use mod_spdy.Protocol.Text.{bytes_eq}
use mod_spdy.Protocol.Http
use mod_spdy.Protocol.Spdy2
use mod_spdy.Protocol.Spdy3
use mod_spdy.Protocol.Headers.{find, insert_new}
use mod_spdy.SpdyToHttp.Values.{values}

-- SpdyToHttpConverter::Status
pub data Status : Type 0 where
  spdy_converter_success frame_before_syn_stream frame_after_fin extra_syn_stream
        invalid_header_block bad_request :
      Status

-- SpdyToHttpConverter::State
pub data ConverterState : Type 0 where
  no_frames_yet received_syn_stream received_data received_flag_fin : ConverterState

-- The methods of HttpRequestVisitorInterface.
pub data Visit : Type 0 where
  request_line : (method path version : Bytes) → Visit
  leading_header : (key value : Bytes) → Visit
  leading_headers_complete : Visit
  raw_data : Bytes → Visit
  data_chunk : Bytes → Visit
  data_chunks_complete : Visit
  trailing_header : (key value : Bytes) → Visit
  trailing_headers_complete : Visit
  complete : Visit

pub record Converter : Type 0 where
  pub spdy_version : SpdyVersion
  pub visitor : List Visit
  pub trailing_headers : HeaderBlock
  pub state : ConverterState
  pub use_chunking : Bool
  pub seen_accept_encoding : Bool

unfoldable pub create : SpdyVersion → Converter
create version = record {
  spdy_version = version;
  visitor = [];
  trailing_headers = [];
  state = no_frames_yet;
  use_chunking = true;
  seen_accept_encoding = false;
}

abbrev pub visit : List Visit → Converter → Converter
visit calls c = record c { visitor = c.visitor ++ calls }

-- The names that GenerateRequestLine looks up.
abbrev pub method_name : SpdyVersion → Bytes
method_name v = if has_stream_windows v then Spdy3.method else Spdy2.method

abbrev pub scheme_name : SpdyVersion → Bytes
scheme_name v = if has_stream_windows v then Spdy3.scheme else Spdy2.scheme

abbrev pub host_name : SpdyVersion → Bytes
host_name v = if has_stream_windows v then Spdy3.host else Http.host

abbrev pub path_name : SpdyVersion → Bytes
path_name v = if has_stream_windows v then Spdy3.path else Spdy2.url

abbrev pub version_name : SpdyVersion → Bytes
version_name v = if has_stream_windows v then Spdy3.version else Spdy2.version

-- GenerateRequestLine: the method, the path and the version that the visitor gets, or none where the
-- source returns false.
unfoldable pub generate_request_line : SpdyVersion → HeaderBlock → Option (Bytes × Bytes × Bytes)
generate_request_line v block = do
  method ← find (method_name v) block
  scheme ← find (scheme_name v) block
  host ← find (host_name v) block
  path ← find (path_name v) block
  version ← find (version_name v) block
  some (method, path, version)

-- The SPDY-specific headers that are skipped.
abbrev pub is_spdy_header : SpdyVersion → Bytes → Bool
is_spdy_header v key =
    bytes_eq key (method_name v)
    || bytes_eq key (scheme_name v)
    || bytes_eq key (path_name v)
    || bytes_eq key (version_name v)

-- From the test for Accept-Encoding to the end of the loop's body in GenerateLeadingHeaders.
unfoldable pub insert_leading_header : (key value : Bytes) → Converter → Converter
insert_leading_header key value c =
    visit (map (leading_header key) (values value))
      (if bytes_eq key Http.accept_encoding then record c { seen_accept_encoding = true } else c)

-- The name under which a header goes on.
abbrev pub http_name : SpdyVersion → Bytes → Bytes
http_name v key = if has_stream_windows v && bytes_eq key Spdy3.host then Http.host else key

-- From the test for Content-Length to the end of the loop's body.
unfoldable pub generate_http_header : (key value : Bytes) → Converter → Converter
unfolding insert_leading_header
generate_http_header key value c =
    let noted = if bytes_eq key Http.content_length then record c { use_chunking = false } else c in
    if bytes_eq key Http.transfer_encoding
    then noted
    else insert_leading_header (http_name c.spdy_version key) value noted

-- The body of the loop in GenerateLeadingHeaders.
unfoldable pub generate_leading_header : (key value : Bytes) → Converter → Converter
unfolding generate_http_header
generate_leading_header key value c =
    if is_spdy_header c.spdy_version key
    then c
    else if bytes_eq key Http.connection || bytes_eq key Http.keep_alive
    then c
    else generate_http_header key value c

unfoldable pub generate_leading_headers : HeaderBlock → Converter → Converter
unfolding generate_leading_header
generate_leading_headers [] c = c
generate_leading_headers ((key, value) ∷ block) c =
    generate_leading_headers block (generate_leading_header key value c)

unfoldable pub end_of_leading_headers : Converter → Converter
end_of_leading_headers c = visit (leading_headers_complete ∷ []) (
    if c.seen_accept_encoding
    then c
    else visit (leading_header Http.accept_encoding Http.gzip_deflate ∷ []) c)

unfoldable pub trailing_calls : HeaderBlock → List Visit
trailing_calls [] = []
trailing_calls ((key, value) ∷ block) =
    map (trailing_header key) (values value) ++ trailing_calls block

-- The buffered trailing headers, if any, in FinishRequest.
unfoldable pub append_trailing_headers : HeaderBlock → Converter → Converter
append_trailing_headers [] c = c
append_trailing_headers (header ∷ block) c = record c {
  visitor = (c.visitor ++ trailing_calls (header ∷ block)) ++ trailing_headers_complete ∷ [];
  trailing_headers = [];
}

unfoldable pub finish_body : ConverterState → Converter → Converter
unfolding append_trailing_headers end_of_leading_headers
finish_body received_data c =
    if c.use_chunking
    then append_trailing_headers c.trailing_headers (visit (data_chunks_complete ∷ []) c)
    else c
finish_body _ c = end_of_leading_headers c

unfoldable pub finish_request : Converter → Converter
unfolding finish_body
finish_request c = record (visit (complete ∷ []) (finish_body c.state c)) {
  state = received_flag_fin;
}

-- "If this is the last frame on this stream, finish off the HTTP request."
unfoldable pub finish_if : Bool → Converter → Converter
unfolding finish_request
finish_if fin c = if fin then finish_request c else c

unfoldable pub convert_first :
    HeaderBlock → Bool → Option (Bytes × Bytes × Bytes) → Converter → Status × Converter
unfolding finish_if generate_leading_headers
convert_first block fin none c = (bad_request, c)
convert_first block fin (some (method, path, version)) c = (
  spdy_converter_success,
  finish_if fin (generate_leading_headers block (visit (request_line method path version ∷ []) c)),
)

unfoldable pub convert_syn_stream_frame : HeaderBlock → Bool → Converter → Status × Converter
unfolding convert_first generate_request_line
convert_syn_stream_frame block fin c = elim c.state [
  | no_frames_yet ↦
      convert_first block fin (generate_request_line c.spdy_version block)
        (record c { state = received_syn_stream })
  | received_syn_stream ↦ (extra_syn_stream, c)
  | received_data ↦ (extra_syn_stream, c)
  | received_flag_fin ↦ (extra_syn_stream, c)
]

-- A HEADERS frame after data: its headers are buffered.
unfoldable pub buffer_trailing_headers : HeaderBlock → Converter → Converter
unfolding insert_new
buffer_trailing_headers block c =
    if c.use_chunking
    then record c { trailing_headers = insert_new block c.trailing_headers }
    else c

unfoldable pub convert_headers_frame : HeaderBlock → Bool → Converter → Status × Converter
unfolding buffer_trailing_headers generate_leading_headers finish_if
convert_headers_frame block fin c = elim c.state [
  | no_frames_yet ↦ (frame_before_syn_stream, c)
  | received_syn_stream ↦ (spdy_converter_success, finish_if fin (generate_leading_headers block c))
  | received_data ↦ (spdy_converter_success, finish_if fin (buffer_trailing_headers block c))
  | received_flag_fin ↦ (frame_after_fin, c)
]

-- The first DATA frame closes the leading headers.
unfoldable pub start_body : Converter → Converter
unfolding end_of_leading_headers
start_body c =
    let started = record c { state = received_data } in
    end_of_leading_headers (
      if c.use_chunking
      then visit (leading_header Http.transfer_encoding Http.chunked ∷ []) started
      else started)

unfoldable pub convert_data : Bytes → Bool → Converter → Status × Converter
unfolding finish_if
convert_data bytes fin c = (
  spdy_converter_success,
  finish_if fin (
      if no_bytes bytes
      then c
      else visit ((if c.use_chunking then data_chunk bytes else raw_data bytes) ∷ []) c),
)

unfoldable pub convert_data_frame : Bytes → Bool → Converter → Status × Converter
unfolding convert_data start_body
convert_data_frame bytes fin c = elim c.state [
  | no_frames_yet ↦ (frame_before_syn_stream, c)
  | received_syn_stream ↦ convert_data bytes fin (start_body c)
  | received_data ↦ convert_data bytes fin c
  | received_flag_fin ↦ (frame_after_fin, c)
]
