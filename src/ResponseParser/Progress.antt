-- ===== src/ResponseParser/Progress.antt =====
-- The loop of ProcessInput in http_response_parser.cc gets through its input.
use mod_spdy.Common.{
  ℕ, zero, suc, ◌≤◌, ◌<◌, ◌≡◌, ◌≢◌, refl, leb, length, length-drop, drop, [], ◌∷◌, Option, none,
  some, not, ◌||◌, ◌==◌, false, arith,
}
use mathlib.Core.Path.{subst}
use mod_spdy.Frame.{Bytes}
use mod_spdy.ResponseParser.{
  ParserState, status_line, leading_headers, leading_headers_check_next_line, chunk_start,
  body_data, chunk_ending, complete, BodyType, unchunked_body, Numbers, Parser, create, Outcome,
  fails, returns, goes_on, Result, accepts, rejects, loops, process_input, process, process_by,
  process_status_line, process_leading_headers, check_start_of_header_line, process_chunk_start,
  process_body_data, process_chunk_ending, parse_leading_header, note_header,
}
use mod_spdy.ResponseParser.Lines.{break_line, span, skip}

-- A parser after any inputs that it has accepted.
pub data Reach (numbers : Numbers) : Parser → Type 0 where
  starts : Reach numbers create
  feeds :
      {p p' : Parser} (input : Bytes)
      → process_input numbers input p ≡ accepts p'
      → Reach numbers p
      → Reach numbers p'

-- A body of known size, or a chunk, is never empty when its data is read.
abbrev HasBody : BodyType → ℕ → Type 0
HasBody unchunked_body n = 0 < n
HasBody _ n = Unit

abbrev HasData : ParserState → BodyType → ℕ → Type 0
HasData status_line b n = HasBody b n
HasData leading_headers b n = HasBody b n
HasData leading_headers_check_next_line b n = HasBody b n
HasData body_data b n = 0 < n
HasData _ b n = Unit

abbrev IsReady : Parser → Type 0
IsReady p = HasData p.state p.body_type p.remaining_bytes

abbrev Advances : Bytes → Outcome → Type 0
Advances input (goes_on rest p) = IsReady p × (length rest < length input)
Advances input (returns p) = IsReady p
Advances input (fails p) = Unit

abbrev Shortens : Bytes → Option (Bytes × Bytes) → Type 0
Shortens input none = Unit
Shortens input (some (line, rest)) = length rest < length input

break_line-Shortens : (input : Bytes) → Shortens input (break_line input)
unfolding break_line
break_line-Shortens [] = tt
break_line-Shortens (c ∷ []) = ground arith
break_line-Shortens (c ∷ d ∷ cs) = ground (arith, break_line-Shortens (d ∷ cs))

process_status_line-Advances :
    (input : Bytes) (p : Parser)
    → 0 < length input
    → p.state ≡ status_line
    → IsReady p
    → Advances input (process_status_line input p)
unfolding process_status_line
process_status_line-Advances input p l s h = ground (arith, break_line-Shortens input)

process_leading_headers-Advances :
    (input : Bytes) (p : Parser)
    → 0 < length input
    → p.state ≡ leading_headers
    → IsReady p
    → Advances input (process_leading_headers input p)
unfolding process_leading_headers
process_leading_headers-Advances input p l s h = ground (arith, break_line-Shortens input)

note_header-IsReady :
    (numbers : Numbers) (key value : Bytes) (p : Parser)
    → HasBody p.body_type p.remaining_bytes
    → HasBody
        (note_header numbers key value p).body_type
        (note_header numbers key value p).remaining_bytes
unfolding note_header
note_header-IsReady numbers key value p h = ground arith

process_chunk_start-Advances :
    (numbers : Numbers) (input : Bytes) (p : Parser)
    → 0 < length input
    → p.state ≡ chunk_start
    → Advances input (process_chunk_start numbers input p)
unfolding process_chunk_start
process_chunk_start-Advances numbers input p l s = ground (arith, break_line-Shortens input)

process_body_data-Advances :
    (input : Bytes) (p : Parser)
    → 0 < length input
    → p.state ≡ body_data
    → IsReady p
    → Advances input (process_body_data input p)
unfolding process_body_data
process_body_data-Advances input p l s h = ground (arith, length-drop p.remaining_bytes input)

process_chunk_ending-Advances :
    (input : Bytes) (p : Parser) → 0 < length input → Advances input (process_chunk_ending input p)
unfolding process_chunk_ending
process_chunk_ending-Advances input p l = ground (arith, length-drop 2 input)

abbrev ReadsHeaders : Option Parser → Type 0
ReadsHeaders none = Unit
ReadsHeaders (some p) = (p.state ≡ leading_headers) × HasBody p.body_type p.remaining_bytes

check_start_of_header_line-ReadsHeaders :
    (numbers : Numbers) (input : Bytes) (p : Parser)
    → HasBody p.body_type p.remaining_bytes
    → ReadsHeaders (check_start_of_header_line numbers input p)
unfolding check_start_of_header_line parse_leading_header
check_start_of_header_line-ReadsHeaders numbers input p h =
    let (key, rest) = span (λ c. not (c == 58)) p.buffer in
    ground
      (arith, note_header-IsReady numbers key (skip (λ c. c == 32 || c == 9) (drop 1 rest)) p h)

read_headers-Advances :
    (o : Option Parser) (input : Bytes) (p : Parser)
    → 0 < length input
    → ReadsHeaders o
    → Advances input
        (elim o as (λ x. Outcome) [ none ↦ fails p | some p' ↦ process_leading_headers input p' ])
read_headers-Advances none input p l h = tt
read_headers-Advances (some p') input p l h =
    process_leading_headers-Advances input p' l h.0 (rw h.0 h.1)

process_by-Advances :
    (numbers : Numbers) (state : ParserState) (input : Bytes) (p : Parser)
    → 0 < length input
    → p.state ≡ state
    → IsReady p
    → Advances input (process_by numbers state input p)
unfolding process_by
process_by-Advances numbers status_line input p l s h = process_status_line-Advances input p l s h
process_by-Advances numbers leading_headers input p l s h =
    process_leading_headers-Advances input p l s h
process_by-Advances numbers leading_headers_check_next_line input p l s h =
    read_headers-Advances (check_start_of_header_line numbers input p) input p l
      (check_start_of_header_line-ReadsHeaders numbers input p (ground arith))
process_by-Advances numbers chunk_start input p l s h =
    process_chunk_start-Advances numbers input p l s
process_by-Advances numbers body_data input p l s h = process_body_data-Advances input p l s h
process_by-Advances numbers chunk_ending input p l s h = process_chunk_ending-Advances input p l
process_by-Advances numbers complete input p l s h = h

abbrev Keeps : Result → Type 0
Keeps (accepts p) = IsReady p
Keeps (rejects p) = Unit
Keeps (loops p) = ⊥

next-Keeps :
    (numbers : Numbers) (fuel : ℕ) (input : Bytes) (o : Outcome)
    → ((rest : Bytes) (p : Parser)
        → length rest < length input
        → IsReady p
        → Keeps (process numbers fuel (length input) rest p))
    → Advances input o
    → Keeps (elim o as (λ x. Result) [
      | fails p' ↦ rejects p'
      | returns p' ↦ accepts p'
      | goes_on rest p' ↦ process numbers fuel (length input) rest p'
    ])
next-Keeps numbers fuel input (fails p) go h = tt
next-Keeps numbers fuel input (returns p) go h = h
next-Keeps numbers fuel input (goes_on rest p) go h = go rest p h.1 h.0

process-Keeps :
    (numbers : Numbers) (fuel last_length : ℕ) (input : Bytes) (p : Parser)
    → length input ≤ fuel
    → length input < last_length
    → IsReady p
    → Keeps (process numbers fuel last_length input p)
unfolding process
process-Keeps numbers fuel last_length [] p f l h = h
process-Keeps numbers zero last_length (b ∷ bs) p f l h = absurd (omega arith)
process-Keeps numbers (suc fuel) last_length (b ∷ bs) p f l h =
    let shorter : leb last_length (length (b ∷ bs)) ≡ false = ground arith in
    rw shorter (
      next-Keeps numbers fuel (b ∷ bs) (process_by numbers p.state (b ∷ bs) p)
        (λ rest p' less ready.
          process-Keeps numbers fuel (length (b ∷ bs)) rest p' (omega arith) less ready)
        (process_by-Advances numbers p.state (b ∷ bs) p (omega arith) refl h))

pub process_input-Keeps :
    (numbers : Numbers) (input : Bytes) (p : Parser)
    → IsReady p
    → Keeps (process_input numbers input p)
unfolding process_input
process_input-Keeps numbers input p h =
    process-Keeps numbers (length input) (suc (length input)) input p (omega arith) (omega arith) h

pub Reach-IsReady : {numbers : Numbers} {p : Parser} → Reach numbers p → IsReady p
Reach-IsReady starts = tt
Reach-IsReady {numbers} (feeds {p} input e r) =
    subst Keeps e (process_input-Keeps numbers input p (Reach-IsReady r))

-- ProcessInput never meets its check against endless loops: each turn of the loop leaves less input
-- than it found, on any input and after any inputs that were accepted before.
pub process_input-ne-loops :
    {numbers : Numbers} {p : Parser} (input : Bytes) (p' : Parser)
    → Reach numbers p
    → process_input numbers input p ≢ loops p'
process_input-ne-loops {numbers} {p} input p' r =
    λ e. subst Keeps e (process_input-Keeps numbers input p (Reach-IsReady r))
