-- ===== src/PushFilter/Loop.antt =====
-- The loop over the entries of X-Associated-Content headers in server_push_filter.cc. The calls of
-- StartServerPush are collected, the newest first, and `answer` gives the result of each.
use mod_spdy.Common.{
  ℕ, zero, suc, ltb, length, Bool, true, false, ◌&&◌, List, [], ◌∷◌, ◌++◌, Option, none, some,
  ◌>>=◌, if◌then◌else◌,
}
use mod_spdy.Frame.{Bytes}
use mod_spdy.Protocol.{SpdyVersion, has_stream_windows}
use mod_spdy.Session.Push.{PushStatus}
use mod_spdy.PushFilter.{Library, Request, Try, absorb_white_space, parse_entry, goes_on}

-- The loop, none if the fuel runs out.
unfoldable pub parse_entries :
    Library
    → SpdyVersion
    → Request
    → (answer : List Try → PushStatus) → (fuel : ℕ) → (first_url : Bool) → Bytes
    → List Try
    → Option (List Try)
unfolding parse_entry
parse_entries lib version request answer zero first_url value tries = none
parse_entries lib version request answer (suc fuel) first_url [] tries = some tries
parse_entries lib version request answer (suc fuel) first_url (b ∷ bs) tries =
    elim (parse_entry lib version request first_url (b ∷ bs)) [
      | none ↦ some tries
      | some (none, rest) ↦ parse_entries lib version request answer fuel false rest tries
      | some (some new, rest) ↦ elim (goes_on (answer (new ∷ tries))) [
        | true ↦ parse_entries lib version request answer fuel false rest (new ∷ tries)
        | false ↦ some (new ∷ tries)
      ]
    ]

-- ParseXAssociatedContentHeader; each turn of the loop takes a quote at least.
unfoldable pub parse_x_associated_content_header :
    Library → SpdyVersion → Request → (List Try → PushStatus) → Bytes → List Try → Option (List Try)
unfolding parse_entries absorb_white_space
parse_x_associated_content_header lib version request answer value tries =
    parse_entries lib version request answer (suc (length (absorb_white_space value))) true
      (absorb_white_space value) tries

-- apr_table_do for OnXAssociatedContent: header after header.
unfoldable pub parse_headers :
    Library
    → SpdyVersion
    → Request
    → (List Try → PushStatus)
    → List Bytes
    → List Try
    → Option (List Try)
unfolding parse_x_associated_content_header
parse_headers lib version request answer [] tries = some tries
parse_headers lib version request answer (value ∷ values) tries =
    parse_x_associated_content_header lib version request answer value tries
    >>= parse_headers lib version request answer values

-- The pushes of Write, from headers_out and then err_headers_out.
unfoldable pub write :
    Library
    → SpdyVersion
    → Request
    → (List Try → PushStatus)
    → (depth max_depth : ℕ) → (headers_out err_headers_out : List Bytes) → Option (List Try)
unfolding parse_headers
write lib version request answer depth max_depth headers_out err_headers_out =
    if has_stream_windows version && ltb depth max_depth
    then parse_headers lib version request answer (headers_out ++ err_headers_out) []
    else some []
