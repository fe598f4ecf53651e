-- ===== src/ResponseParser.antt =====
-- The incremental parser of HTTP responses: src/mod_spdy/common/http_response_parser.cc and .h.
-- `visits` are the calls of the HttpResponseVisitorInterface, the newest first. StringToUint64 and
-- HexStringToInt belong to Chromium's base: the record `Numbers` stands for them.
pub mod Lines
pub mod Progress
pub mod Body
pub mod Split
use mod_spdy.Common.{
  ℕ, zero, suc, ◌-◌, ltb, leb, ◌==◌, ℤ, pos, negsuc, length, take, drop, Bool, true, false, not,
  ◌&&◌, ◌||◌, List, [], ◌∷◌, ◌++◌, Option, none, some, if◌then◌else◌,
}
use mod_spdy.Frame.{Bytes, no_bytes}
use mod_spdy.Protocol.Http
use mod_spdy.Protocol.Text.{bytes_eq}
use mod_spdy.Protocol.Headers.{lower_equals}
use mod_spdy.ResponseParser.Lines.{break_line, starts_with_crlf, span, skip, is_hex_digit}

pub data ParserState : Type 0 where
  status_line leading_headers leading_headers_check_next_line chunk_start body_data chunk_ending
        complete :
      ParserState

pub data BodyType : Type 0 where
  no_body unchunked_body chunked_body : BodyType

-- The results of the two conversions, none where they return false.
pub record Numbers : Type 0 where
  pub string_to_uint64 : Bytes → Option ℕ
  pub hex_string_to_int : Bytes → Option ℤ

pub data Visit : Type 0 where
  on_status_line : (version status_code status_phrase : Bytes) → Visit
  on_leading_header : (key value : Bytes) → Visit
  on_leading_headers_complete : (fin : Bool) → Visit
  on_data : Bytes → (fin : Bool) → Visit

pub record Parser : Type 0 where
  pub state : ParserState
  pub body_type : BodyType
  pub remaining_bytes : ℕ
  pub buffer : Bytes
  pub visits : List Visit

abbrev pub create : Parser
create = record {
  state = status_line;
  body_type = no_body;
  remaining_bytes = 0;
  buffer = [];
  visits = [];
}

abbrev pub visit : Visit → Parser → Parser
visit v p = record p { visits = v ∷ p.visits }

-- ParseStatusLine: false, or what it tells the visitor.
unfoldable pub parse_status_line : Bytes → Option Visit
parse_status_line text =
    let (version, rest) = span (λ c. not (c == 32)) text in
    let (code, more) = span (λ c. not (c == 32)) (skip (λ c. c == 32) rest) in
    if no_bytes (skip (λ c. c == 32) rest)
    then none
    else some (on_status_line version code (skip (λ c. c == 32) more))

abbrev pub is_chunked_body : BodyType → Bool
is_chunked_body chunked_body = true
is_chunked_body _ = false

-- What ParseLeadingHeader reads off the two headers that tell about the body.
unfoldable pub note_header : Numbers → (key value : Bytes) → Parser → Parser
note_header numbers key value p =
    if lower_equals key Http.transfer_encoding
    then (if bytes_eq value Http.chunked then record p { body_type = chunked_body } else p)
    else if not (is_chunked_body p.body_type) && lower_equals key Http.content_length
    then elim (numbers.string_to_uint64 value) [
      | none ↦ p
      | some n ↦ if ltb 0 n then record p { remaining_bytes = n; body_type = unchunked_body } else p
    ]
    else p

-- ParseLeadingHeader: false, or the parser after it.
unfoldable pub parse_leading_header : Numbers → Bytes → Parser → Option Parser
unfolding note_header
parse_leading_header numbers text p =
    let (key, rest) = span (λ c. not (c == 58)) text in
    let value = skip (λ c. c == 32 || c == 9) (drop 1 rest) in
    if no_bytes rest
    then none
    else some (visit (on_leading_header key value) (note_header numbers key value p))

-- ParseChunkStart: false, or the size of the chunk.
unfoldable pub parse_chunk_start : Numbers → Bytes → Option ℕ
parse_chunk_start numbers text = elim (numbers.hex_string_to_int (span is_hex_digit text).0) [
  | none ↦ none
  | some (pos n) ↦ some n
  | some (negsuc n) ↦ none
]

-- One turn of the loop: false, true with all input skipped, or the data that is left.
pub data Outcome : Type 0 where
  fails : Parser → Outcome
  returns : Parser → Outcome
  goes_on : Bytes → Parser → Outcome

-- Without a line break, all data goes to the buffer.
abbrev pub keep_line : Bytes → Parser → Outcome
keep_line input p = goes_on [] (record p { buffer = p.buffer ++ input })

-- ProcessStatusLine
unfoldable pub process_status_line : Bytes → Parser → Outcome
unfolding parse_status_line
process_status_line input p = elim (break_line input) [
  | none ↦ keep_line input p
  | some (line, rest) ↦ elim (parse_status_line (p.buffer ++ line)) [
    | none ↦ fails (record p { buffer = p.buffer ++ line })
    | some v ↦ goes_on rest (visit v (record p { buffer = []; state = leading_headers }))
  ]
]

abbrev pub state_after_headers : BodyType → ParserState
state_after_headers chunked_body = chunk_start
state_after_headers unchunked_body = body_data
state_after_headers no_body = complete

abbrev pub is_no_body : BodyType → Bool
is_no_body no_body = true
is_no_body _ = false

-- ProcessLeadingHeaders
unfoldable pub process_leading_headers : Bytes → Parser → Outcome
process_leading_headers input p = elim (break_line input) [
  | none ↦ keep_line input p
  | some (line, rest) ↦
      if no_bytes line && no_bytes p.buffer
      then goes_on rest (
          visit (on_leading_headers_complete (is_no_body p.body_type))
            (record p { state = state_after_headers p.body_type }))
      else goes_on rest
          (record p { buffer = p.buffer ++ line; state = leading_headers_check_next_line })
]

-- Does the line go on with the header in the buffer?
abbrev pub starts_with_space : Bytes → Bool
starts_with_space [] = false
starts_with_space (c ∷ cs) = c == 32 || c == 9

-- CheckStartOfHeaderLine: false, or the parser after it.
unfoldable pub check_start_of_header_line : Numbers → Bytes → Parser → Option Parser
unfolding parse_leading_header
check_start_of_header_line numbers input p =
    if starts_with_space input
    then some (record p { state = leading_headers })
    else elim (parse_leading_header numbers p.buffer p) [
      | none ↦ none
      | some p' ↦ some (record p' { buffer = []; state = leading_headers })
    ]

-- ProcessChunkStart
unfoldable pub process_chunk_start : Numbers → Bytes → Parser → Outcome
unfolding parse_chunk_start
process_chunk_start numbers input p = elim (break_line input) [
  | none ↦ keep_line input p
  | some (line, rest) ↦ elim (parse_chunk_start numbers (p.buffer ++ line)) [
    | none ↦ fails (record p { buffer = p.buffer ++ line })
    | some zero ↦
        goes_on rest (
          visit (on_data [] true) (record p { buffer = []; remaining_bytes = 0; state = complete }))
    | some (suc n) ↦
        goes_on rest (record p { buffer = []; remaining_bytes = suc n; state = body_data })
  ]
]

-- ProcessBodyData
unfoldable pub process_body_data : Bytes → Parser → Outcome
process_body_data input p =
    let chunked = is_chunked_body p.body_type in
    if ltb (length input) p.remaining_bytes
    then goes_on [] (
        visit (on_data input false)
          (record p { remaining_bytes = p.remaining_bytes - length input }))
    else goes_on (drop p.remaining_bytes input) (
        visit (on_data (take p.remaining_bytes input) (not chunked))
          (record p { state = if chunked then chunk_ending else complete; remaining_bytes = 0 }))

-- ProcessChunkEnding
unfoldable pub process_chunk_ending : Bytes → Parser → Outcome
process_chunk_ending input p =
    if starts_with_crlf input
    then goes_on (drop 2 input) (record p { state = chunk_start })
    else fails p

-- The switch.
unfoldable pub process_by : Numbers → ParserState → Bytes → Parser → Outcome
unfolding process_status_line process_leading_headers check_start_of_header_line process_chunk_start
    process_body_data process_chunk_ending
process_by numbers status_line input p = process_status_line input p
process_by numbers leading_headers_check_next_line input p =
    elim (check_start_of_header_line numbers input p) [
      | none ↦ fails p
      | some p' ↦ process_leading_headers input p'
    ]
process_by numbers leading_headers input p = process_leading_headers input p
process_by numbers chunk_start input p = process_chunk_start numbers input p
process_by numbers body_data input p = process_body_data input p
process_by numbers chunk_ending input p = process_chunk_ending input p
process_by numbers complete input p = returns p

-- ProcessInput returns true or false, or false by the check that the data gets shorter.
pub data Result : Type 0 where
  accepts : Parser → Result
  rejects : Parser → Result
  loops : Parser → Result

-- The loop, with the check against `last_length`; fuel is the size of the data.
unfoldable pub process : Numbers → (fuel last_length : ℕ) → Bytes → Parser → Result
unfolding process_by
process numbers fuel last_length [] p = accepts p
process numbers zero last_length (b ∷ bs) p = loops p
process numbers (suc fuel) last_length (b ∷ bs) p =
    if leb last_length (length (b ∷ bs))
    then loops p
    else elim (process_by numbers p.state (b ∷ bs) p) [
      | fails p' ↦ rejects p'
      | returns p' ↦ accepts p'
      | goes_on rest p' ↦ process numbers fuel (length (b ∷ bs)) rest p'
    ]

-- ProcessInput
unfoldable pub process_input : Numbers → Bytes → Parser → Result
unfolding process
process_input numbers input p = process numbers (length input) (suc (length input)) input p
