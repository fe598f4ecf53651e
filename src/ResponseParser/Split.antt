-- ===== src/ResponseParser/Split.antt =====
-- A line break between two inputs of http_response_parser.cc.
use mod_spdy.Common.{
  suc, ◌<◌, length-append, ◌≡◌, refl, leb, length, [], ◌∷◌, ◌++◌, none, some, false, arith,
}
use mod_spdy.Frame.{Bytes}
use mod_spdy.ResponseParser.{
  status_line, Numbers, Parser, accepts, process_input, process, process_by, process_status_line,
}
use mod_spdy.ResponseParser.Lines.{break_line}

process_input-buffer :
    (numbers : Numbers) (input : Bytes) (p : Parser)
    → 0 < length input
    → p.state ≡ status_line
    → break_line input ≡ none
    → process_input numbers input p ≡ accepts (record p { buffer = p.buffer ++ input })
unfolding process_input process process_by process_status_line
process_input-buffer numbers [] p l s e = absurd (omega arith)
process_input-buffer numbers (c ∷ cs) p l s e =
    let shorter : leb (suc (suc (length cs))) (suc (length cs)) ≡ false = ground arith in
    rw (shorter, s, e) refl

break_line-append :
    (text rest : Bytes)
    → break_line (text ++ 13 ∷ []) ≡ none
    → break_line (text ++ 13 ∷ 10 ∷ rest) ≡ some (text, rest)
unfolding break_line
break_line-append [] rest h = refl
break_line-append (c ∷ []) rest h = ground arith
break_line-append (c ∷ d ∷ cs) rest h = ground (arith, break_line-append (d ∷ cs) rest)

-- A status line whose line break falls between two inputs is not found: if the first input ends with
-- CR, the next starts with LF, and neither has a whole line break, then both go to the buffer, and the
-- parser goes on to wait for the end of the line. In one input the line would end between the two.
pub process_input-split :
    (numbers : Numbers) (text rest : Bytes) (p : Parser)
    → p.state ≡ status_line
    → break_line (text ++ 13 ∷ []) ≡ none
    → break_line (10 ∷ rest) ≡ none
    → (process_input numbers (text ++ 13 ∷ []) p
        ≡ accepts (record p { buffer = p.buffer ++ (text ++ 13 ∷ []) }))
      × (process_input numbers (10 ∷ rest) (record p { buffer = p.buffer ++ (text ++ 13 ∷ []) })
          ≡ accepts (record p { buffer = (p.buffer ++ (text ++ 13 ∷ [])) ++ 10 ∷ rest }))
      × (break_line (text ++ 13 ∷ 10 ∷ rest) ≡ some (text, rest))
process_input-split numbers text rest p s e e' = (
  process_input-buffer numbers (text ++ 13 ∷ []) p (omega (arith, length-append text (13 ∷ []))) s
      e,
  process_input-buffer numbers (10 ∷ rest) (record p { buffer = p.buffer ++ (text ++ 13 ∷ []) })
      (omega arith) s e',
  break_line-append text rest e,
)
