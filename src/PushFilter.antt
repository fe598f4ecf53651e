-- ===== src/PushFilter.antt =====
-- Server pushes that a response asks for: src/mod_spdy/apache/filters/server_push_filter.cc. The number
-- conversion of Chromium's base and apr_uri_parse are parameters, and so are the tables' iteration and lookup in APR. A StringPiece's substr from past its end is empty, as Chromium has it.
pub mod Loop
pub mod Legal
pub mod Accepted
pub mod Entries
pub mod Pushes
use mod_spdy.Common.{
  ℕ, zero, suc, ltb, ◌==◌, length, Bool, true, false, not, ◌&&◌, ◌||◌, List, [], ◌∷◌, ◌++◌, Option,
  none, some, ◌>>=◌, if◌then◌else◌,
}
use mod_spdy.Frame.{Bytes, HeaderBlock}
use mod_spdy.Protocol.{SpdyVersion, has_stream_windows, lowest_spdy_priority_for_version}
use mod_spdy.Protocol.Text.{codes}
use mod_spdy.Protocol.Spdy3
use mod_spdy.Protocol.Headers.{assign, merge_in_header}
use mod_spdy.ResponseParser.Lines.{span, skip}
use mod_spdy.Session.Push.{
  PushStatus, push_started, invalid_request_headers, associated_stream_inactive,
  cannot_push_ever_again, too_many_concurrent_pushes, push_internal_error,
}

-- kReferer
abbrev pub referer : Bytes
referer = codes "referer"

abbrev pub kept_headers : List Bytes
kept_headers =
    codes "accept"
    ∷ codes "accept-charset"
    ∷ codes "accept-datetime"
    ∷ codes "accept-encoding"
    ∷ codes "accept-language"
    ∷ codes "authorization"
    ∷ codes "user-agent"
    ∷ []

-- kHost
abbrev pub host_name : Bytes
host_name = codes "host"

-- apr_uri_t, as far as it is read; a NULL is none.
pub record Uri : Type 0 where
  pub scheme : Option Bytes
  pub hostinfo : Option Bytes
  pub path : Option Bytes
  pub query : Option Bytes
  pub fragment : Option Bytes

-- base::StringToUint, apr_uri_parse, the entries that apr_table_do visits for some keys, apr_table_get.
pub record Library : Type 0 where
  pub string_to_uint : Bytes → Option ℕ
  pub uri_parse : Bytes → Option Uri
  pub table_entries : (keys : List Bytes) → List (Bytes × Bytes) → List (Bytes × Bytes)
  pub table_get : (key : Bytes) → List (Bytes × Bytes) → Option Bytes

-- The request_rec, as far as it is read.
pub record Request : Type 0 where
  pub headers_in : List (Bytes × Bytes)
  pub hostname : Option Bytes
  pub protocol : Bytes
  pub unparsed_uri : Bytes

-- A call of StartServerPush.
pub record Try : Type 0 where
  pub priority : ℕ
  pub request_headers : HeaderBlock

abbrev pub is_white : ℕ → Bool
is_white c = c == 32 || (c == 10 || (c == 13 || c == 9))

unfoldable pub absorb_white_space : Bytes → Bytes
unfolding skip
absorb_white_space source = skip is_white source

-- Up to the closing quote, which is absent if nothing is left.
unfoldable pub close_quote : Bytes × Bytes → Option (Bytes × Bytes)
unfolding absorb_white_space
close_quote (out, []) = none
close_quote (out, c ∷ rest) = some (out, absorb_white_space rest)

abbrev pub is_not_quote : ℕ → Bool
is_not_quote c = not (c == b'"')

unfoldable pub parse_quoted_string : Bytes → Option (Bytes × Bytes)
unfolding close_quote span
parse_quoted_string [] = none
parse_quoted_string (c ∷ source) =
    if c == b'"' then close_quote (span is_not_quote source) else none

unfoldable pub parse_separator : ℕ → Bytes → Option Bytes
unfolding absorb_white_space
parse_separator c [] = none
parse_separator c (b ∷ source) = if b == c then some (absorb_white_space source) else none

abbrev pub is_digit : ℕ → Bool
is_digit c = not (ltb c b'0') && not (ltb b'9' c)

-- After the colon; the number is clamped.
unfoldable pub clamp : (lowest : ℕ) → Bytes → Option ℕ → Bytes × Bytes → ℕ × Bytes
unfolding absorb_white_space
clamp lowest source none (number, rest) = (lowest, source)
clamp lowest source (some priority) (number, rest) =
    (if ltb lowest priority then lowest else priority, absorb_white_space rest)

unfoldable pub priority_after : Library → (lowest : ℕ) → Bytes → Option Bytes → ℕ × Bytes
unfolding clamp span
priority_after lib lowest source none = (lowest, source)
priority_after lib lowest source (some rest) =
    clamp lowest rest (lib.string_to_uint (span is_digit rest).0) (span is_digit rest)

unfoldable pub parse_optional_priority : Library → SpdyVersion → Bytes → ℕ × Bytes
unfolding priority_after parse_separator
parse_optional_priority lib version source =
    priority_after lib (lowest_spdy_priority_for_version version) source
      (parse_separator b':' source)

-- AddOneHeader for each entry.
unfoldable pub add_headers : List (Bytes × Bytes) → HeaderBlock → HeaderBlock
add_headers [] block = block
add_headers ((key, value) ∷ entries) block = add_headers entries (merge_in_header key value block)

abbrev pub or_value : Option Bytes → Bytes → Bytes
or_value none value = value
or_value (some text) value = text

abbrev pub marked : ℕ → Option Bytes → Bytes
marked c none = []
marked c (some text) = c ∷ text

-- The path with the query and the fragment.
unfoldable pub full_path : Uri → Bytes
full_path uri = or_value uri.path (codes "/") ++ (marked b'?' uri.query ++ marked b'#' uri.fragment)

-- The request headers of a push.
unfoldable pub push_headers : Library → Request → Uri → HeaderBlock
unfolding add_headers full_path assign
push_headers lib request uri = assign referer request.unparsed_uri (
    assign Spdy3.path (full_path uri) (
      assign Spdy3.version request.protocol (
        assign Spdy3.scheme (or_value uri.scheme (codes "https")) (
          assign Spdy3.method (codes "GET") (
            assign Spdy3.host
              (or_value uri.hostinfo (
                or_value (lib.table_get host_name request.headers_in)
                  (or_value request.hostname [])))
              (add_headers (lib.table_entries kept_headers request.headers_in) []))))))

abbrev pub after_comma : (first_url : Bool) → Bytes → Option Bytes
unfolding parse_separator
after_comma first_url value = if first_url then some value else parse_separator b',' value

-- One entry of the header: the push, none for an invalid URL, and what follows; or a parse error.
unfoldable pub try_of : Library → Request → Bytes → ℕ × Bytes → Option Try × Bytes
unfolding push_headers
try_of lib request url (priority, rest) = (
  lib.uri_parse url >>= λ uri.
      some (record { priority = priority; request_headers = push_headers lib request uri }),
  rest,
)

unfoldable pub parse_entry :
    Library → SpdyVersion → Request → (first_url : Bool) → Bytes → Option (Option Try × Bytes)
unfolding try_of parse_quoted_string parse_optional_priority
parse_entry lib version request first_url value = do
  source ← after_comma first_url value
  quoted ← parse_quoted_string source
  some (try_of lib request quoted.0 (parse_optional_priority lib version quoted.1))

abbrev pub goes_on : PushStatus → Bool
goes_on push_started = true
goes_on _ = false
