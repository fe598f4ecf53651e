-- ===== src/ResponseParser/Body.antt =====
-- A body of known length in http_response_parser.cc, and a line break between two inputs.
use mod_spdy.Common.{
  ℕ, zero, suc, ◌-◌, ◌≤◌, ◌<◌, ◌≡◌, refl, ap, leb, ltb, length, take, drop, List, [], ◌∷◌, ◌++◌,
  Bool-cases, inl, inr, Bool, true, false, if◌then◌else◌, length-drop, arith,
}
use mod_spdy.Frame.{Bytes}
use mod_spdy.ResponseParser.{
  body_data, complete, unchunked_body, Numbers, Parser, Visit, visit, on_data, Outcome, fails,
  returns, goes_on, Result, accepts, rejects, process_input, process, process_by, process_body_data,
}

-- The body that the visitor has got.
abbrev payload : Visit → Bytes
payload (on_data bytes fin) = bytes
payload _ = []

abbrev pub body_bytes : List Visit → Bytes
body_bytes [] = []
body_bytes (v ∷ older) = body_bytes older ++ payload v

-- The newest visit ends the response.
abbrev pub ends : List Visit → Bool
ends (on_data bytes fin ∷ older) = fin
ends _ = false

-- The loop once its first turn is taken.
unfoldable next : Numbers → ℕ → Bytes → Outcome → Result
next numbers fuel input (fails p) = rejects p
next numbers fuel input (returns p) = accepts p
next numbers fuel input (goes_on rest p) = process numbers fuel (length input) rest p

-- What one input does to a body of which bytes are missing.
abbrev pub Reads : Bytes → Parser → Result → Type 0
Reads input p (accepts p') =
    (body_bytes p'.visits ≡ body_bytes p.visits ++ take p.remaining_bytes input)
    × (p'.remaining_bytes ≡ p.remaining_bytes - length input)
    × (p'.state ≡ (if leb p.remaining_bytes (length input) then complete else body_data))
    × (ends p'.visits ≡ leb p.remaining_bytes (length input))
    × (p'.body_type ≡ unchunked_body)
Reads input p _ = ⊥

-- After the end of the body the rest of the input is skipped.
process-complete :
    (numbers : Numbers) (fuel last_length : ℕ) (input : Bytes) (p : Parser)
    → p.state ≡ complete
    → length input ≤ fuel
    → length input < last_length
    → process numbers fuel last_length input p ≡ accepts p
unfolding process process_by
process-complete numbers fuel last_length [] p s f l = refl
process-complete numbers zero last_length (b ∷ bs) p s f l = absurd (omega arith)
process-complete numbers (suc fuel) last_length (b ∷ bs) p s f l =
    let shorter : leb last_length (length (b ∷ bs)) ≡ false = ground arith in rw (shorter, s) refl

process-body_data :
    (numbers : Numbers) (c : ℕ) (cs : Bytes) (p : Parser)
    → p.state ≡ body_data
    → process_input numbers (c ∷ cs) p
      ≡ next numbers (length cs) (c ∷ cs) (process_body_data (c ∷ cs) p)
unfolding process_input process process_by next
process-body_data numbers c cs p s =
    let shorter : leb (suc (suc (length cs))) (suc (length cs)) ≡ false = ground arith in
    rw (shorter, s) refl

process-nil :
    (numbers : Numbers) (fuel last_length : ℕ) (p : Parser)
    → process numbers fuel last_length [] p ≡ accepts p
unfolding process
process-nil numbers fuel last_length p = refl

take-all : (n : ℕ) (xs : Bytes) → length xs < n → take n xs ≡ xs
take-all zero xs h = absurd (omega arith)
take-all (suc n) [] h = refl
take-all (suc n) (x ∷ xs) h = ap (λ l. x ∷ l) (take-all n xs (omega arith))

next-Reads :
    (numbers : Numbers) (fuel : ℕ) (input : Bytes) (p : Parser)
    → length input ≡ suc fuel
    → p.body_type ≡ unchunked_body
    → p.state ≡ body_data
    → 0 < p.remaining_bytes
    → Reads input p (next numbers fuel input (process_body_data input p))
unfolding next process_body_data
next-Reads numbers fuel input p l b s h = elim (Bool-cases (ltb (length input) p.remaining_bytes)) [
  | inl more ↦ rw (more, process-nil) (ground (arith, take-all p.remaining_bytes input))
  | inr done ↦
      let n = p.remaining_bytes in
      let p' =
        visit (on_data (take n input) true)
          (record p { state = complete; remaining_bytes = 0; body_type = unchunked_body }) in
      let left = length-drop n input in
      rw
        (
          done,
          b,
          process-complete numbers fuel (length input) (drop n input) p' refl (omega arith)
              (omega arith),
        )
        (ground arith)
]

-- An input in the middle of a body whose length was given: the visitor gets as much of it as is
-- missing, FLAG_FIN exactly with the last byte of the body, and what follows the body is skipped.
pub process_input-Reads :
    (numbers : Numbers) (input : Bytes) (p : Parser)
    → 0 < length input
    → p.state ≡ body_data
    → p.body_type ≡ unchunked_body
    → 0 < p.remaining_bytes
    → Reads input p (process_input numbers input p)
process_input-Reads numbers [] p l s b h = absurd (omega arith)
process_input-Reads numbers (c ∷ cs) p l s b h =
    rw (process-body_data numbers c cs p s) (next-Reads numbers (length cs) (c ∷ cs) p refl b s h)
