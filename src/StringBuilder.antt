-- ===== src/StringBuilder.antt =====
-- The text of a HTTP request: HttpStringBuilder of src/mod_spdy/common/http_string_builder.cc. Chromium's
-- StringAppendF of "%lX" is the parameter `hex`. A DCHECK that fails is noted and the method goes on, as
-- it does in a release.
pub mod Grammar
pub mod Stages
pub mod Ends
pub mod Fits
pub mod Checks
use mod_spdy.Common.{ℕ, Bool, true, false, ◌&&◌, ◌||◌, List, [], ◌∷◌, ◌++◌, length, if◌then◌else◌}
use mod_spdy.Frame.{Bytes}
use mod_spdy.Protocol.Text.{codes}
use mod_spdy.SpdyToHttp.{
  Visit, request_line, leading_header, leading_headers_complete, raw_data, data_chunk,
  data_chunks_complete, trailing_header, trailing_headers_complete, complete,
}

-- HttpStringBuilder::State
pub data BuilderState : Type 0 where
  in_request_line in_leading_headers in_leading_headers_complete in_raw_data in_data_chunks
        in_data_chunks_complete in_trailing_headers in_trailing_headers_complete in_complete :
      BuilderState

pub record Builder : Type 0 where
  pub string : Bytes
  pub state : BuilderState
  pub checks_hold : Bool

unfoldable pub create : Builder
create = record { string = []; state = in_request_line; checks_hold = true }

abbrev pub state_is_complete : BuilderState → Bool
state_is_complete in_complete = true
state_is_complete _ = false

-- is_complete
unfoldable pub is_complete : Builder → Bool
is_complete b = state_is_complete b.state

abbrev pub crlf : Bytes
crlf = 13 ∷ 10 ∷ []

-- OnHeader
abbrev pub header_line : (key value : Bytes) → Bytes
header_line key value = key ++ codes ": " ++ value ++ crlf

-- The DCHECK at the start of each method, by the states it names.
unfoldable pub allows : Visit → BuilderState → Bool
allows (request_line _ _ _) in_request_line = true
allows (request_line _ _ _) _ = false
allows (leading_header _ _) in_leading_headers = true
allows (leading_header _ _) _ = false
allows leading_headers_complete in_leading_headers = true
allows leading_headers_complete _ = false
allows (raw_data _) in_leading_headers_complete = true
allows (raw_data _) in_raw_data = true
allows (raw_data _) _ = false
allows (data_chunk _) in_leading_headers_complete = true
allows (data_chunk _) in_data_chunks = true
allows (data_chunk _) _ = false
allows data_chunks_complete in_data_chunks = true
allows data_chunks_complete _ = false
allows (trailing_header _ _) in_data_chunks_complete = true
allows (trailing_header _ _) in_trailing_headers = true
allows (trailing_header _ _) _ = false
allows trailing_headers_complete in_trailing_headers = true
allows trailing_headers_complete _ = false
allows complete in_leading_headers_complete = true
allows complete in_raw_data = true
allows complete in_data_chunks_complete = true
allows complete in_trailing_headers_complete = true
allows complete _ = false

-- The state that each method sets; OnLeadingHeader leaves it alone.
unfoldable pub next_state : Visit → BuilderState → BuilderState
next_state (request_line _ _ _) s = in_leading_headers
next_state (leading_header _ _) s = s
next_state leading_headers_complete s = in_leading_headers_complete
next_state (raw_data _) s = in_raw_data
next_state (data_chunk _) s = in_data_chunks
next_state data_chunks_complete s = in_data_chunks_complete
next_state (trailing_header _ _) s = in_trailing_headers
next_state trailing_headers_complete s = in_trailing_headers_complete
next_state complete s = in_complete

-- The empty line of OnComplete.
unfoldable pub closing_line : BuilderState → Bytes
closing_line in_data_chunks_complete = crlf
closing_line _ = []

-- What each method appends.
unfoldable pub text : (hex : ℕ → Bytes) → Visit → BuilderState → Bytes
unfolding closing_line
text hex (request_line method path version) s =
    method ++ codes " " ++ path ++ codes " " ++ version ++ crlf
text hex (leading_header key value) s = header_line key value
text hex leading_headers_complete s = crlf
text hex (raw_data bytes) s = bytes
text hex (data_chunk bytes) s = hex (length bytes) ++ crlf ++ bytes ++ crlf
text hex data_chunks_complete s = codes "0" ++ crlf
text hex (trailing_header key value) s = header_line key value
text hex trailing_headers_complete s = crlf
text hex complete s = closing_line s

unfoldable pub build : (hex : ℕ → Bytes) → Visit → Builder → Builder
unfolding allows next_state text
build hex call b = record {
  string = b.string ++ text hex call b.state;
  state = next_state call b.state;
  checks_hold = b.checks_hold && allows call b.state;
}

-- The calls in their order.
unfoldable pub build_all : (hex : ℕ → Bytes) → List Visit → Builder → Builder
unfolding build
build_all hex [] b = b
build_all hex (call ∷ calls) b = build_all hex calls (build hex call b)
