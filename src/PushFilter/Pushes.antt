-- ===== src/PushFilter/Pushes.antt =====
-- All pushes of a response in server_push_filter.cc.
use mod_spdy.Common.{
  ℕ, zero, suc, ◌<◌, ltb, length, ◌≡◌, refl, Bool, true, false, ◌&&◌, List, [], ◌∷◌, ◌++◌, Option,
  none, some, ◌>>=◌, if-cases, Bool-cases, inl, inr, arith,
}
use mod_spdy.Frame.{Bytes}
use mod_spdy.Protocol.{SpdyVersion}
use mod_spdy.Session.Push.{PushStatus}
use mod_spdy.PushFilter.{Library, Request, Try, absorb_white_space, parse_entry, goes_on}
use mod_spdy.PushFilter.Loop.{
  parse_entries, parse_x_associated_content_header, parse_headers, write,
}
use mod_spdy.Common.{ap₂}
use mod_spdy.Protocol.{has_stream_windows}
use mod_spdy.PushFilter.Legal.{all_legal, is_legal_result}
use mod_spdy.PushFilter.Accepted.{Ends, is_legal_result-Ends}
use mod_spdy.PushFilter.Entries.{GoodEntry, parse_entry-GoodEntry}

-- What follows an entry is legal, if the rest of the loop is.
after_entry-legal :
    (version : SpdyVersion) (answer : List Try → PushStatus) (fuel : ℕ) (value : Bytes)
    (go : Bytes → List Try → Option (List Try)) (tries : List Try)
    → length value < suc fuel
    → all_legal version tries ≡ true
    → ((rest : Bytes) (next : List Try)
        → length rest < fuel
        → all_legal version next ≡ true
        → is_legal_result version (go rest next) ≡ true)
    → (o : Option (Option Try × Bytes)) → GoodEntry version value o
    → is_legal_result version (elim o [
      | none ↦ some tries
      | some (none, rest) ↦ go rest tries
      | some (some new, rest) ↦ elim (goes_on (answer (new ∷ tries))) [
        | true ↦ go rest (new ∷ tries)
        | false ↦ some (new ∷ tries)
      ]
    ])
      ≡ true
unfolding all_legal
after_entry-legal version answer fuel value go tries l h ih none g = h
after_entry-legal version answer fuel value go tries l h ih (some (none, rest)) g =
    ih rest tries (omega (arith, g, l)) h
after_entry-legal version answer fuel value go tries l h ih (some (some new, rest)) (g, legal) =
    elim (Bool-cases (goes_on (answer (new ∷ tries)))) [
      | inl goes ↦ simp goes (ih rest (new ∷ tries) (omega (arith, g, l)) (ap₂ ◌&&◌ legal h))
      | inr stops ↦ simp stops (ap₂ ◌&&◌ legal h)
    ]

parse_entries-legal :
    (lib : Library) (version : SpdyVersion) (request : Request) (answer : List Try → PushStatus)
    (fuel : ℕ) (first_url : Bool) (value : Bytes) (tries : List Try)
    → length value < fuel
    → all_legal version tries ≡ true
    → is_legal_result version (parse_entries lib version request answer fuel first_url value tries)
      ≡ true
unfolding parse_entries
parse_entries-legal lib version request answer zero first_url value tries l h = absurd (omega arith)
parse_entries-legal lib version request answer (suc fuel) first_url [] tries l h = h
parse_entries-legal lib version request answer (suc fuel) first_url (b ∷ bs) tries l h =
    after_entry-legal version answer fuel (b ∷ bs)
      (parse_entries lib version request answer fuel false) tries l h
      (parse_entries-legal lib version request answer fuel false)
      (parse_entry lib version request first_url (b ∷ bs))
      (parse_entry-GoodEntry lib version request first_url (b ∷ bs))

after_header-legal :
    (version : SpdyVersion) (go : List Try → Option (List Try))
    → ((tries : List Try)
        → all_legal version tries ≡ true
        → is_legal_result version (go tries) ≡ true)
    → (o : Option (List Try)) → is_legal_result version o ≡ true
    → is_legal_result version (o >>= go) ≡ true
after_header-legal version go ih none g = g
after_header-legal version go ih (some tries) g = ih tries g

parse_headers-legal :
    (lib : Library) (version : SpdyVersion) (request : Request) (answer : List Try → PushStatus)
    (values : List Bytes) (tries : List Try)
    → all_legal version tries ≡ true
    → is_legal_result version (parse_headers lib version request answer values tries) ≡ true
unfolding parse_headers parse_x_associated_content_header
parse_headers-legal lib version request answer [] tries h = h
parse_headers-legal lib version request answer (value ∷ values) tries h =
    let text = absorb_white_space value in
    after_header-legal version (parse_headers lib version request answer values)
      (parse_headers-legal lib version request answer values)
      (parse_entries lib version request answer (suc (length text)) true text tries)
      (parse_entries-legal lib version request answer (suc (length text)) true text tries
        (omega arith) h)

write-legal :
    (lib : Library) (version : SpdyVersion) (request : Request) (answer : List Try → PushStatus)
    (depth max_depth : ℕ) (headers_out err_headers_out : List Bytes)
    → is_legal_result version
        (write lib version request answer depth max_depth headers_out err_headers_out)
      ≡ true
unfolding write all_legal
write-legal lib version request answer depth max_depth headers_out err_headers_out =
    if-cases (λ (o : Option (List Try)). is_legal_result version o ≡ true)
      (has_stream_windows version && ltb depth max_depth) {y = some []}
      (parse_headers-legal lib version request answer (headers_out ++ err_headers_out) [] refl) refl

-- Whatever X-Associated-Content headers a response has and whatever StartServerPush answers, the parsing
-- of the headers ends, and each push that it asks for has a priority of the SPDY version and is not
-- refused for its request headers by StartServerPush of any session.
pub write-Ends :
    (lib : Library) (version : SpdyVersion) (request : Request) (answer : List Try → PushStatus)
    (depth max_depth : ℕ) (headers_out err_headers_out : List Bytes)
    → Ends version (write lib version request answer depth max_depth headers_out err_headers_out)
write-Ends lib version request answer depth max_depth headers_out err_headers_out =
    is_legal_result-Ends version
      (write lib version request answer depth max_depth headers_out err_headers_out)
      (write-legal lib version request answer depth max_depth headers_out err_headers_out)
