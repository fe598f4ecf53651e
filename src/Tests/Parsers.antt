-- ===== src/Tests/Parsers.antt =====
-- Runs of http_response_parser.cc.
use mod_spdy.Common.{
  ◌≡◌, ◌≢◌, refl, ℕ, pos, [], ◌∷◌, ◌++◌, Option, none, some, true, false, ◌==◌, if◌then◌else◌,
  arith,
}
use mod_spdy.Frame.{Bytes}
use mod_spdy.Protocol.Text.{codes, bytes_eq, lower}
use mod_spdy.Protocol.Headers.{lower_equals}
use mod_spdy.ResponseParser.{
  Numbers, Parser, create, body_data, unchunked_body, chunked_body, complete, accepts, loops,
  process_input, on_data, on_leading_headers_complete, on_leading_header, on_status_line,
}
use mod_spdy.ResponseParser.Lines.{break_line, span, skip}
use mod_spdy.ResponseParser.Progress.{starts, process_input-ne-loops}
use mod_spdy.ResponseParser.Body.{Reads, process_input-Reads}
use mod_spdy.ResponseParser.Split.{process_input-split}

-- Enough of the conversions for the runs below: the digits 0 and 2.
abbrev digit : Bytes → Option ℕ
digit [] = none
digit (c ∷ cs) = if c == 48 then some 0 else if c == 50 then some 2 else none

abbrev digits : Numbers
digits = record {
  string_to_uint64 = digit;
  hex_string_to_int = λ text. elim (digit text) [ none ↦ none | some n ↦ some (pos n) ];
}

abbrev crlf : Bytes
crlf = 13 ∷ 10 ∷ []

abbrev chunked_response : Bytes
chunked_response =
    codes "A 200 OK"
    ++ crlf
    ++ codes "Transfer-Encoding: chunked"
    ++ crlf
    ++ crlf
    ++ codes "2"
    ++ crlf
    ++ codes "hi"
    ++ crlf
    ++ codes "0"
    ++ crlf

parses :
    process_input digits chunked_response create
    ≡ accepts (record {
      state = complete;
      body_type = chunked_body;
      remaining_bytes = 0;
      buffer = [];
      visits =
          on_data [] true
          ∷ on_data (codes "hi") false
          ∷ on_leading_headers_complete false
          ∷ on_leading_header (codes "Transfer-Encoding") (codes "chunked")
          ∷ on_status_line (codes "A") (codes "200") (codes "OK")
          ∷ [];
    })
unfolding process_input break_line span skip lower_equals bytes_eq lower
parses = refl

process_input-ne-loops_example : process_input digits chunked_response create ≢ loops create
process_input-ne-loops_example =
    process_input-ne-loops {numbers = digits} chunked_response create starts

abbrev in_body : Parser
in_body = record {
  state = body_data;
  body_type = unchunked_body;
  remaining_bytes = 3;
  buffer = [];
  visits = [];
}

process_input-Reads_example :
    Reads (codes "abcdef") in_body (process_input digits (codes "abcdef") in_body)
process_input-Reads_example =
    process_input-Reads digits (codes "abcdef") in_body (omega arith) refl refl (omega arith)

abbrev waiting : Parser
waiting = record create { buffer = codes "A " }

process_input-split_example :
    (process_input digits ((50 ∷ []) ++ 13 ∷ []) waiting
      ≡ accepts (record waiting { buffer = waiting.buffer ++ ((50 ∷ []) ++ 13 ∷ []) }))
    × (process_input digits
          (10 ∷ [])
          (record waiting { buffer = waiting.buffer ++ ((50 ∷ []) ++ 13 ∷ []) })
        ≡ accepts
            (record waiting { buffer = (waiting.buffer ++ ((50 ∷ []) ++ 13 ∷ [])) ++ 10 ∷ [] }))
    × (break_line ((50 ∷ []) ++ 13 ∷ 10 ∷ []) ≡ some (50 ∷ [], []))
unfolding break_line
process_input-split_example = process_input-split digits (50 ∷ []) [] waiting refl refl refl
