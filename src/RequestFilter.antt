-- ===== src/RequestFilter.antt =====
-- The input filter of a stream's connection: src/mod_spdy/apache/filters/spdy_to_http_filter.cc. It takes
-- frames from the stream and gives Apache the text of the request. The stream is what its
-- GetInputFrame returns, one call after the other, and whether it is aborted; a bucket brigade is the
-- bytes put into it and whether an EOS bucket follows.
pub mod Feeding
pub mod Reading
use mod_spdy.Common.{
  ℕ, zero, suc, ◌+◌, ltb, leb, ◌==◌, length, take, drop, Bool, true, false, not, ◌&&◌, ◌||◌, List,
  [], ◌∷◌, Option, none, some, if◌then◌else◌,
}
use mod_spdy.Frame.{
  Bytes, no_bytes, Frame, syn_stream, syn_reply, rst_stream, settings, ping, goaway, headers,
  window_update, data_frame, RstStreamStatus, protocol_error, invalid_stream, refused_stream,
  internal_error,
}
use mod_spdy.Protocol.{SpdyVersion}
use mod_spdy.SpdyToHttp.{
  Status, spdy_converter_success, frame_before_syn_stream, frame_after_fin, extra_syn_stream,
  invalid_header_block, bad_request, Converter,
}
use mod_spdy.SpdyToHttp
use mod_spdy.SpdyToHttp.Request.{Input, takes_syn_stream, takes_headers, takes_data, convert}
use mod_spdy.StringBuilder.{Builder, build_all, is_complete}
use mod_spdy.StringBuilder

-- kGetlineThreshold
abbrev pub getline_threshold : ℕ
getline_threshold = 4096

-- The modes of ap_input_mode_t.
pub data Mode : Type 0 where
  initial read_bytes speculative exhaustive get_line eat_crlf : Mode

-- data_buffer_ is the text of the builder; the converter's calls are handed to it after each frame.
-- `is_aborted` is the stream's, `connection_aborted` the connection's.
pub record Filter : Type 0 where
  pub visitor : Builder
  pub converter : Converter
  pub next_read_start : ℕ
  pub is_aborted : Bool
  pub connection_aborted : Bool
  pub rst_streams : List RstStreamStatus
  pub consumed : ℕ

unfoldable pub create : SpdyVersion → Filter
unfolding SpdyToHttp.create StringBuilder.create
create version = record {
  visitor = StringBuilder.create;
  converter = SpdyToHttp.create version;
  next_read_start = 0;
  is_aborted = false;
  connection_aborted = false;
  rst_streams = [];
  consumed = 0;
}

unfoldable pub end_of_stream_reached : Filter → Bool
unfolding is_complete
end_of_stream_reached f = is_complete f.visitor

-- AbortStream
unfoldable pub abort_stream : RstStreamStatus → Filter → Filter
abort_stream status f = record f { is_aborted = true; rst_streams = status ∷ f.rst_streams }

-- The status for which the stream is aborted, by the frame and the converter's status.
unfoldable pub refusal : Input → Status → Option RstStreamStatus
refusal input spdy_converter_success = none
refusal (takes_syn_stream block fin) extra_syn_stream = some protocol_error
refusal (takes_syn_stream block fin) invalid_header_block = some protocol_error
refusal (takes_syn_stream block fin) bad_request = some refused_stream
refusal (takes_syn_stream block fin) _ = some internal_error
refusal (takes_headers block fin) frame_after_fin = some invalid_stream
refusal (takes_headers block fin) invalid_header_block = some protocol_error
refusal (takes_headers block fin) _ = some internal_error
refusal (takes_data bytes fin) frame_after_fin = some invalid_stream
refusal (takes_data bytes fin) _ = some internal_error

-- What OnInputDataConsumed is told after a frame.
abbrev pub data_size : Input → ℕ
data_size (takes_data bytes fin) = length bytes
data_size (takes_headers block fin) = 0
data_size (takes_syn_stream block fin) = 0

unfoldable pub settle : Option RstStreamStatus → ℕ → Filter → Bool × Filter
unfolding abort_stream
settle none size f = (true, record f { consumed = f.consumed + size })
settle (some status) size f = (false, abort_stream status f)

-- DecodeSynStreamFrame, DecodeHeadersFrame and DecodeDataFrame.
unfoldable pub decode : (hex : ℕ → Bytes) → Input → Filter → Bool × Filter
unfolding convert build_all settle refusal
decode hex input f =
    let (status, converter) = convert input f.converter in
    settle (refusal input status) (data_size input) (record f {
      visitor = build_all hex converter.visitor f.visitor;
      converter = record converter { visitor = [] };
    })

-- DecodeFrameVisitor: the frames that a stream gets, none for BadFrameType.
unfoldable pub decoded : Frame → Option Input
decoded (syn_stream id associated priority slot fin unidirectional block) =
    some (takes_syn_stream block fin)
decoded (headers id fin block) = some (takes_headers block fin)
decoded (data_frame id fin bytes) = some (takes_data bytes fin)
decoded (syn_reply id fin block) = none
decoded (rst_stream id status) = none
decoded (settings id value) = none
decoded (ping id) = none
decoded (goaway id status) = none
decoded (window_update id delta) = none

unfoldable pub decode_if : (hex : ℕ → Bytes) → Option Input → Filter → Bool × Filter
unfolding decode abort_stream
decode_if hex none f = (false, abort_stream internal_error f)
decode_if hex (some input) f = decode hex input f

-- One call of GetNextFrame: the frame that GetInputFrame returns, if there is one, and whether another
-- thread has aborted the stream by the time the call returns.
pub record Arrival : Type 0 where
  pub frame : Option Frame
  pub aborted : Bool

unfoldable pub decode_arrival : (hex : ℕ → Bytes) → Option Frame → Filter → Bool × Filter
unfolding decode_if decoded
decode_arrival hex none f = (false, f)
decode_arrival hex (some frame) f = decode_if hex (decoded frame) f

-- GetNextFrame, when the end of the stream has not been reached.
unfoldable pub get_next_frame : (hex : ℕ → Bytes) → Arrival → Filter → Bool × Filter
unfolding decode_arrival
get_next_frame hex arrival f =
    decode_arrival hex arrival.frame (record f { is_aborted = f.is_aborted || arrival.aborted })

-- RETURN_IF_STREAM_ABORT: whether to return, with the connection marked.
unfoldable pub stream_abort : Filter → Bool
stream_abort f = f.connection_aborted || f.is_aborted

unfoldable pub has_newline : Bytes → Bool
has_newline [] = false
has_newline (b ∷ bs) = b == 10 || has_newline bs

-- Whether the loop of a mode asks for more, by the buffer. The source looks for a line break in what is
-- new in the buffer only; there is none in the rest.
unfoldable pub wants_more : Mode → (max_bytes : ℕ) → Bytes → Bool
unfolding has_newline
wants_more read_bytes max_bytes buffer = ltb (length buffer) max_bytes
wants_more speculative max_bytes buffer = ltb (length buffer) max_bytes
wants_more exhaustive max_bytes buffer = true
wants_more get_line max_bytes buffer =
    not (has_newline buffer || leb getline_threshold (length buffer))
wants_more initial max_bytes buffer = false
wants_more eat_crlf max_bytes buffer = false

-- The loops of Read: true if the stream is found aborted. Where there is no further call of
-- GetInputFrame, it is taken to return no frame.
unfoldable pub pull : (hex : ℕ → Bytes) → Mode → ℕ → List Arrival → Filter → Bool × Filter
unfolding wants_more end_of_stream_reached get_next_frame stream_abort
pull hex mode max_bytes [] f = (false, f)
pull hex mode max_bytes (arrival ∷ arrivals) f =
    let (got, f') = get_next_frame hex arrival f in
    let rest = pull hex mode max_bytes arrivals f' in
    let now = record f { is_aborted = f.is_aborted || arrival.aborted } in
    if not (wants_more mode max_bytes f.visitor.string)
    then (false, f)
    else if end_of_stream_reached f
    then (stream_abort now, now)
    else if stream_abort f'
    then (true, f')
    else if got
    then rest
    else (false, f')

-- The text up to and with the first line break, or the whole text.
unfoldable pub line_length : Bytes → ℕ
line_length [] = 0
line_length (b ∷ bs) = if b == 10 then 1 else suc (line_length bs)

unfoldable pub bytes_to_read : Mode → (max_bytes : ℕ) → Bytes → ℕ
unfolding line_length
bytes_to_read exhaustive max_bytes buffer = length buffer
bytes_to_read get_line max_bytes buffer = line_length buffer
bytes_to_read _ max_bytes buffer =
    if ltb max_bytes (length buffer) then max_bytes else length buffer

-- The apr_status_t, and what is in the brigade.
pub data Outcome : Type 0 where
  succeeds : (bytes : Bytes) → (eos : Bool) → Outcome
  at_eof not_implemented try_again conn_aborted : Outcome

abbrev pub is_speculative : Mode → Bool
is_speculative speculative = true
is_speculative _ = false

-- The end of Read.
unfoldable pub deliver : Mode → (block : Bool) → (bytes_read : ℕ) → Filter → Outcome × Filter
unfolding end_of_stream_reached
deliver mode block bytes_read f =
    let eos = end_of_stream_reached f && bytes_read == length f.visitor.string in
    if not (ltb 0 bytes_read || eos) && not block then (try_again, f) else (
      succeeds (take bytes_read f.visitor.string) eos,
      if is_speculative mode then f else record f { next_read_start = bytes_read },
    )

unfoldable pub after_pull : Mode → ℕ → (block : Bool) → Bool × Filter → Outcome × Filter
unfolding deliver bytes_to_read
after_pull mode max_bytes block (true, f) = (conn_aborted, record f { connection_aborted = true })
after_pull mode max_bytes block (false, f) =
    deliver mode block (bytes_to_read mode max_bytes f.visitor.string) f

-- The text that was returned before is dropped from the buffer.
unfoldable pub drop_returned : Filter → Filter
drop_returned f = record f {
  visitor = record f.visitor { string = drop f.next_read_start f.visitor.string };
  next_read_start = 0;
}

unfoldable pub is_eat_crlf : Mode → Bool
is_eat_crlf eat_crlf = true
is_eat_crlf _ = false

unfoldable pub is_initial : Mode → Bool
is_initial initial = true
is_initial _ = false

unfoldable pub read_buffer :
    (hex : ℕ → Bytes) → Mode → ℕ → Bool → List Arrival → Filter → Outcome × Filter
unfolding pull after_pull end_of_stream_reached stream_abort is_eat_crlf is_initial
read_buffer hex mode max_bytes block arrivals f =
    if is_initial mode
    then (succeeds [] false, f)
    else if end_of_stream_reached f && no_bytes f.visitor.string
    then (at_eof, f)
    else if stream_abort f
    then (conn_aborted, record f { connection_aborted = true })
    else if is_eat_crlf mode
    then (not_implemented, f)
    else after_pull mode max_bytes block (pull hex mode max_bytes arrivals f)

-- Read
unfoldable pub read :
    (hex : ℕ → Bytes)
    → Mode
    → (max_bytes : ℕ) → (block : Bool) → List Arrival
    → Filter
    → Outcome × Filter
unfolding read_buffer drop_returned
read hex mode max_bytes block arrivals f =
    read_buffer hex mode max_bytes block arrivals (drop_returned f)
