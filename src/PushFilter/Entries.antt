-- ===== src/PushFilter/Entries.antt =====
-- One entry of a header in server_push_filter.cc.
use mod_spdy.Common.{
  ℕ, ◌≤◌, ◌<◌, leb, length, ◌≡◌, Bool, true, ◌&&◌, ◌==◌, [], ◌∷◌, Option, none, some, ◌>>=◌,
  if-cases, arith,
}
use mod_spdy.Frame.{Bytes}
use mod_spdy.Protocol.{SpdyVersion, lowest_spdy_priority_for_version}
use mod_spdy.ResponseParser.Lines.{span, skip}
use mod_spdy.PushFilter.{
  Library, Request, Uri, Try, is_white, absorb_white_space, close_quote, is_not_quote,
  parse_quoted_string, parse_separator, is_digit, clamp, priority_after, parse_optional_priority,
  push_headers, after_comma, try_of, parse_entry,
}
use mod_spdy.Common.{ap₂}
use mod_spdy.PushFilter.Legal.{is_legal, push_headers-has_initial}

skip-length : (p : ℕ → Bool) (xs : Bytes) → length (skip p xs) ≤ length xs
unfolding skip
skip-length p [] = omega arith
skip-length p (x ∷ xs) = ground (arith, skip-length p xs)

span-length : (p : ℕ → Bool) (xs : Bytes) → length (span p xs).1 ≤ length xs
unfolding span
span-length p [] = omega arith
span-length p (x ∷ xs) = ground (arith, span-length p xs)

-- The rest is shorter, if there is one.
abbrev Shorter : Bytes → Option (Bytes × Bytes) → Type 0
Shorter source none = Unit
Shorter source (some (out, rest)) = length rest < length source

close_quote-Shorter :
    (c : ℕ) (source : Bytes) (r : Bytes × Bytes)
    → length r.1 ≤ length source
    → Shorter (c ∷ source) (close_quote r)
unfolding close_quote absorb_white_space
close_quote-Shorter c source (out, []) h = tt
close_quote-Shorter c source (out, d ∷ rest) h = omega (arith, h, skip-length is_white rest)

parse_quoted_string-Shorter : (source : Bytes) → Shorter source (parse_quoted_string source)
unfolding parse_quoted_string
parse_quoted_string-Shorter [] = tt
parse_quoted_string-Shorter (c ∷ source) =
    if-cases (Shorter (c ∷ source)) (c == b'"') {y = none}
      (close_quote-Shorter c source (span is_not_quote source) (span-length is_not_quote source)) tt

abbrev NotLonger : Bytes → Option Bytes → Type 0
NotLonger source none = Unit
NotLonger source (some rest) = length rest ≤ length source

parse_separator-NotLonger : (c : ℕ) (source : Bytes) → NotLonger source (parse_separator c source)
unfolding parse_separator absorb_white_space
parse_separator-NotLonger c [] = tt
parse_separator-NotLonger c (b ∷ source) =
    if-cases (NotLonger (b ∷ source)) (b == c) {y = none}
      (omega (arith, skip-length is_white source)) tt

-- A legal priority, and a rest that is not longer.
abbrev GoodPriority : ℕ → Bytes → ℕ × Bytes → Type 0
GoodPriority lowest source r = (leb r.0 lowest ≡ true) × (length r.1 ≤ length source)

clamp-GoodPriority :
    (lowest : ℕ) (source : Bytes) (o : Option ℕ) (r : Bytes × Bytes)
    → length r.1 ≤ length source
    → GoodPriority lowest source (clamp lowest source o r)
unfolding clamp absorb_white_space
clamp-GoodPriority lowest source none r h = (ground arith, omega arith)
clamp-GoodPriority lowest source (some priority) (number, rest) h =
    (ground arith, omega (arith, h, skip-length is_white rest))

priority_after-GoodPriority :
    (lib : Library) (lowest : ℕ) (source : Bytes) (o : Option Bytes)
    → NotLonger source o
    → GoodPriority lowest source (priority_after lib lowest source o)
unfolding priority_after
priority_after-GoodPriority lib lowest source none h = (ground arith, omega arith)
priority_after-GoodPriority lib lowest source (some rest) h =
    let (legal, shorter) =
      clamp-GoodPriority lowest rest (lib.string_to_uint (span is_digit rest).0)
        (span is_digit rest) (span-length is_digit rest) in
    (legal, omega (arith, h, shorter))

-- An entry leaves less, and its push is legal.
abbrev pub GoodEntry : SpdyVersion → Bytes → Option (Option Try × Bytes) → Type 0
GoodEntry version value none = Unit
GoodEntry version value (some (none, rest)) = length rest < length value
GoodEntry version value (some (some t, rest)) =
    (length rest < length value) × (is_legal version t ≡ true)

try_of-GoodEntry :
    (lib : Library) (version : SpdyVersion) (value : Bytes) (request : Request) (o : Option Uri)
    (r : ℕ × Bytes)
    → leb r.0 (lowest_spdy_priority_for_version version) ≡ true
    → length r.1 < length value
    → GoodEntry version value (
        some (
          o >>= λ uri.
              some (record { priority = r.0; request_headers = push_headers lib request uri }),
          r.1,
        ))
try_of-GoodEntry lib version value request none r p l = l
try_of-GoodEntry lib version value request (some uri) r p l =
    (l, ap₂ ◌&&◌ p (push_headers-has_initial lib request uri))

quoted-GoodEntry :
    (lib : Library) (version : SpdyVersion) (request : Request) (value source : Bytes)
    (o : Option (Bytes × Bytes))
    → length source ≤ length value
    → Shorter source o
    → GoodEntry version value (
        o >>= λ quoted.
        some (try_of lib request quoted.0 (parse_optional_priority lib version quoted.1)))
unfolding try_of parse_optional_priority
quoted-GoodEntry lib version request value source none l h = tt
quoted-GoodEntry lib version request value source (some (url, rest)) l h =
    let lowest = lowest_spdy_priority_for_version version in
    let (legal, shorter) =
      priority_after-GoodPriority lib lowest rest (parse_separator b':' rest)
        (parse_separator-NotLonger b':' rest) in
    try_of-GoodEntry lib version value request (lib.uri_parse url)
      (priority_after lib lowest rest (parse_separator b':' rest)) legal
      (omega (arith, l, h, shorter))

comma-GoodEntry :
    (lib : Library) (version : SpdyVersion) (request : Request) (value : Bytes) (o : Option Bytes)
    → NotLonger value o
    → GoodEntry version value (
        o >>= λ source. parse_quoted_string source >>= λ quoted.
        some (try_of lib request quoted.0 (parse_optional_priority lib version quoted.1)))
comma-GoodEntry lib version request value none h = tt
comma-GoodEntry lib version request value (some source) h =
    quoted-GoodEntry lib version request value source (parse_quoted_string source) h
      (parse_quoted_string-Shorter source)

pub parse_entry-GoodEntry :
    (lib : Library) (version : SpdyVersion) (request : Request) (first_url : Bool) (value : Bytes)
    → GoodEntry version value (parse_entry lib version request first_url value)
unfolding parse_entry
parse_entry-GoodEntry lib version request first_url value =
    comma-GoodEntry lib version request value (after_comma first_url value) (
      if-cases (NotLonger value) first_url {x = some value} (omega arith)
        (parse_separator-NotLonger b',' value))
