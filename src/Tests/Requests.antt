-- ===== src/Tests/Requests.antt =====
-- Runs of spdy_to_http_converter.cc and http_string_builder.cc.
use mod_spdy.Common.{ℕ, ◌+◌, ◌≡◌, refl, true, false, List, [], ◌∷◌, ◌++◌, some, ◌>>=◌}
use mod_spdy.Frame.{Bytes, HeaderBlock, syn_stream, data_frame}
use mod_spdy.Protocol.{version_3}
use mod_spdy.Protocol.Text.{codes, bytes_eq, lower}
use mod_spdy.Protocol.Spdy3
use mod_spdy.Protocol.Http
use mod_spdy.Protocol.Headers.{find, assign, insert_new}
use mod_spdy.SpdyToHttp.{
  Converter, Visit, request_line, leading_header, leading_headers_complete, data_chunk,
  data_chunks_complete, trailing_header, trailing_headers_complete, complete, received_flag_fin,
  received_data, frame_after_fin,
}
use mod_spdy.SpdyToHttp
use mod_spdy.SpdyToHttp.Values.{values}
use mod_spdy.SpdyToHttp.Request.{
  Input, takes_syn_stream, takes_headers, takes_data, convert, on_success, convert_all,
}
use mod_spdy.SpdyToHttp.Errors.{error_of, convert-refused}
use mod_spdy.SpdyToHttp.Body.{body}
use mod_spdy.SpdyToHttp.Delivery.{all_data, convert_all-body}
use mod_spdy.SpdyToHttp.RoundTrip.{merge_all, all_plain, values-merge_all}
use mod_spdy.RequestFilter
use mod_spdy.RequestFilter.{Arrival, read_bytes, get_line, read, succeeds}
use mod_spdy.RequestFilter.Reading.{Continues, read-Continues}
use mod_spdy.StringBuilder.{build_all}
use mod_spdy.StringBuilder

abbrev post : HeaderBlock
post =
    (Spdy3.host, codes "h")
    ∷ (Spdy3.method, codes "POST")
    ∷ (Spdy3.path, codes "/")
    ∷ (Spdy3.scheme, codes "https")
    ∷ (Spdy3.version, codes "HTTP/1.1")
    ∷ []

-- A request with a body and a trailing header, the newest frame first.
abbrev inputs : List Input
inputs =
    takes_headers ((codes "x-t", codes "1") ∷ []) true
    ∷ takes_data (104 ∷ 105 ∷ []) false
    ∷ takes_syn_stream post false
    ∷ []

abbrev converted : Converter
converted = record {
  spdy_version = version_3;
  visitor =
      request_line (codes "POST") (codes "/") (codes "HTTP/1.1")
      ∷ leading_header Http.host (codes "h")
      ∷ leading_header Http.transfer_encoding Http.chunked
      ∷ leading_header Http.accept_encoding Http.gzip_deflate
      ∷ leading_headers_complete
      ∷ data_chunk (104 ∷ 105 ∷ [])
      ∷ data_chunks_complete
      ∷ trailing_header (codes "x-t") (codes "1")
      ∷ trailing_headers_complete
      ∷ complete
      ∷ [];
  trailing_headers = [];
  state = received_flag_fin;
  use_chunking = true;
  seen_accept_encoding = false;
}

converts : convert_all inputs (SpdyToHttp.create version_3) ≡ some converted
unfolding convert_all SpdyToHttp.create find bytes_eq values insert_new assign
    SpdyToHttp.trailing_calls
converts = refl

-- A digit for the lengths below ten.
abbrev hex : ℕ → Bytes
hex n = (48 + n) ∷ []

builds : (build_all hex converted.visitor StringBuilder.create).string ≡ (
    codes "POST / HTTP/1.1"
    ++ 13 ∷ 10 ∷ codes "host: h"
    ++ 13 ∷ 10 ∷ codes "transfer-encoding: chunked"
    ++ 13 ∷ 10 ∷ codes "accept-encoding: gzip,deflate"
    ++ 13 ∷ 10 ∷ 13 ∷ 10 ∷ codes "2"
    ++ 13 ∷ 10 ∷ codes "hi"
    ++ 13 ∷ 10 ∷ codes "0"
    ++ 13 ∷ 10 ∷ codes "x-t: 1"
    ++ 13 ∷ 10 ∷ 13 ∷ 10 ∷ [])
unfolding build_all StringBuilder.create
builds = refl

-- A body of one DATA frame without bytes, and what becomes of it.
abbrev no_body : List Input
no_body = takes_data [] true ∷ takes_syn_stream post false ∷ []

empty_body :
    (convert_all no_body (SpdyToHttp.create version_3) >>= λ c.
    some (build_all hex c.visitor StringBuilder.create).checks_hold)
    ≡ some false
unfolding convert_all SpdyToHttp.create find bytes_eq values insert_new assign build_all
    StringBuilder.create
empty_body = refl

convert_all-body_example : body converted.visitor ≡ all_data inputs
convert_all-body_example = convert_all-body version_3 inputs converted converts

convert-refused_example :
    ((convert (takes_data [] true) converted).0 ≡ error_of (takes_data [] true) converted.state)
    × ((convert (takes_data [] true) converted).1.visitor ≡ converted.visitor)
    × ((convert (takes_data [] true) converted).1.trailing_headers ≡ converted.trailing_headers)
    × ((convert (takes_data [] true) converted).1.use_chunking ≡ converted.use_chunking)
unfolding convert on_success
convert-refused_example = convert-refused (takes_data [] true) converted refl

values-merge_all_example :
    (find (lower (codes "Cookie")) (merge_all (codes "Cookie") (codes "a" ∷ codes "bc" ∷ []) post)
      >>= λ text. some (values text))
    ≡ some (codes "a" ∷ codes "bc" ∷ [])
unfolding find bytes_eq lower all_plain
values-merge_all_example =
    values-merge_all (codes "Cookie") (codes "a") (codes "bc" ∷ []) post refl refl

-- The frames of a request as a stream hands them out, and the filter that reads them.
abbrev arrivals : List Arrival
arrivals =
    record { frame = some (syn_stream 1 0 0 0 false false post); aborted = false }
    ∷ record { frame = some (data_frame 1 true (104 ∷ 105 ∷ [])); aborted = false }
    ∷ []

reads_line :
    (read hex get_line 0 true arrivals (RequestFilter.create version_3)).0
    ≡ succeeds (codes "POST / HTTP/1.1" ++ 13 ∷ 10 ∷ []) false
unfolding read RequestFilter.create find bytes_eq values
reads_line = refl

read-Continues_example :
    Continues hex read_bytes arrivals
      (RequestFilter.create version_3)
      (read hex read_bytes 5 true arrivals (RequestFilter.create version_3))
unfolding RequestFilter.create
read-Continues_example =
    read-Continues hex read_bytes 5 true arrivals (RequestFilter.create version_3)
