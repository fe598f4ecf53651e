-- ===== src/RequestFilter/Reading.antt =====
-- The text that spdy_to_http_filter.cc gives to Apache.
use mod_spdy.Common.{
  ℕ, ltb, ◌==◌, length, take, drop, take-append-drop, ◌≡◌, refl, ap, ◌∙◌, Bool, true, false, not,
  ◌&&◌, ◌||◌, List, [], ◌++◌, if◌then◌else◌, if-cases,
}
use mod_spdy.Frame.{Bytes, no_bytes}
use mod_spdy.StringBuilder.{Builder, build_all}
use mod_spdy.RequestFilter.{
  Mode, Filter, Arrival, end_of_stream_reached, stream_abort, pull, bytes_to_read, Outcome,
  succeeds, at_eof, not_implemented, try_again, conn_aborted, is_speculative, deliver, after_pull,
  drop_returned, is_eat_crlf, is_initial, read_buffer, read,
}
use mod_spdy.RequestFilter.Feeding.{
  Extends, longer_refl, build_all-Extends, inputs_of, visits_of, converter_after, pull-Pulls,
}

-- The bytes of a successful Read, and those that it takes out of the buffer.
abbrev pub returned : Outcome → Bytes
returned (succeeds bytes eos) = bytes
returned at_eof = []
returned not_implemented = []
returned try_again = []
returned conn_aborted = []

abbrev pub taken : Mode → Outcome → Bytes
taken mode o = if is_speculative mode then [] else returned o

-- What has not been returned yet.
abbrev pub unread : Filter → Bytes
unread f = drop f.next_read_start f.visitor.string

-- The text before a step is the text taken and the text after it.
abbrev Splits : Mode → Filter → Outcome × Filter → Type 0
Splits mode f r = taken mode r.0 ++ unread r.1 ≡ f.visitor.string

none_taken :
    (mode : Mode) (bytes : Bytes) → (if is_speculative mode then [] else []) ++ bytes ≡ bytes
none_taken mode bytes =
    if-cases (λ (t : Bytes). t ++ bytes ≡ bytes) (is_speculative mode) {x = []} {y = []} refl refl

stays-Splits :
    (mode : Mode) (o : Outcome) (f : Filter)
    → returned o ≡ []
    → f.next_read_start ≡ 0
    → Splits mode f (o, f)
stays-Splits mode o f r z =
    ap (λ t. (if is_speculative mode then [] else t) ++ unread f) r
    ∙ none_taken mode (unread f)
    ∙ ap (λ n. drop n f.visitor.string) z

delivered :
    (b : Bool) (n : ℕ) (f : Filter)
    → f.next_read_start ≡ 0
    → (if b then [] else take n f.visitor.string)
        ++ unread (if b then f else record f { next_read_start = n })
      ≡ f.visitor.string
delivered true n f z = ap (λ n. drop n f.visitor.string) z
delivered false n f z = take-append-drop n f.visitor.string

deliver-Splits :
    (mode : Mode) (block : Bool) (n : ℕ) (f : Filter)
    → f.next_read_start ≡ 0
    → Splits mode f (deliver mode block n f)
unfolding deliver
deliver-Splits mode block n f z =
    let eos = end_of_stream_reached f && n == length f.visitor.string in
    if-cases (λ (r : Outcome × Filter). Splits mode f r) (not (ltb 0 n || eos) && not block)
      {x = (try_again, f)} (stays-Splits mode try_again f refl z)
      (delivered (is_speculative mode) n f z)

after_pull-Splits :
    (mode : Mode) (max_bytes : ℕ) (block b : Bool) (f : Filter)
    → f.next_read_start ≡ 0
    → Splits mode f (after_pull mode max_bytes block (b, f))
unfolding after_pull
after_pull-Splits mode max_bytes block true f z =
    stays-Splits mode conn_aborted (record f { connection_aborted = true }) refl z
after_pull-Splits mode max_bytes block false f z =
    deliver-Splits mode block (bytes_to_read mode max_bytes f.visitor.string) f z

deliver-converter :
    (mode : Mode) (block : Bool) (n : ℕ) (f : Filter)
    → (deliver mode block n f).1.converter ≡ f.converter
unfolding deliver
deliver-converter mode block n f =
    let eos = end_of_stream_reached f && n == length f.visitor.string in
    let P : Outcome × Filter → Type 0 = λ r. r.1.converter ≡ f.converter in
    if-cases P (not (ltb 0 n || eos) && not block) {x = (try_again, f)} refl (
      if-cases (λ (g : Filter). g.converter ≡ f.converter) (is_speculative mode) {x = f}
        {y = record f { next_read_start = n }} refl refl)

after_pull-converter :
    (mode : Mode) (max_bytes : ℕ) (block b : Bool) (f : Filter)
    → (after_pull mode max_bytes block (b, f)).1.converter ≡ f.converter
unfolding after_pull
after_pull-converter mode max_bytes block true f = refl
after_pull-converter mode max_bytes block false f =
    deliver-converter mode block (bytes_to_read mode max_bytes f.visitor.string) f

-- What a Read takes and leaves is what the string builder makes of the text that was there before and
-- the converter's calls for the first of the frames that come.
abbrev pub Continues : (hex : ℕ → Bytes) → Mode → List Arrival → Filter → Outcome × Filter → Type 0
Continues hex mode arrivals f r =
    (n : ℕ) × (taken mode r.0 ++ unread r.1
      ≡ (build_all hex (visits_of (inputs_of (take n arrivals)) f.converter) f.visitor).string)
    × (r.1.converter ≡ converter_after (inputs_of (take n arrivals)) f.converter)
    × Extends (build_all hex (visits_of (inputs_of (take n arrivals)) f.converter) f.visitor).string
        f.visitor.string

Splits-Continues :
    (hex : ℕ → Bytes) (mode : Mode) (arrivals : List Arrival) (f : Filter) (r : Outcome × Filter)
    → Splits mode f r
    → r.1.converter ≡ f.converter
    → Continues hex mode arrivals f r
unfolding build_all visits_of converter_after inputs_of
Splits-Continues hex mode arrivals f r h k = (0, h, k, longer_refl f.visitor.string)

pulled-Continues :
    (hex : ℕ → Bytes) (mode : Mode) (max_bytes : ℕ) (block : Bool) (arrivals : List Arrival)
    (f : Filter)
    → f.next_read_start ≡ 0
    → Continues hex mode arrivals f
        (after_pull mode max_bytes block (pull hex mode max_bytes arrivals f))
pulled-Continues hex mode max_bytes block arrivals f z =
    let (n, (fed, kept, same)) = pull-Pulls hex mode max_bytes arrivals f in
    let r = pull hex mode max_bytes arrivals f in
    (
      n,
      after_pull-Splits mode max_bytes block r.0 r.1 (same ∙ z)
          ∙ ap (λ (b : Builder). b.string) fed,
      after_pull-converter mode max_bytes block r.0 r.1 ∙ kept,
      build_all-Extends hex (visits_of (inputs_of (take n arrivals)) f.converter) f.visitor,
    )

-- Whatever the mode, the frames that come and the outcome: what a Read takes out of the buffer and what
-- is left to return after it are, one after the other, what a string builder makes that has the text
-- left before it and gets the calls of the converter for the first n of the frames, each frame once
-- and in their order; that text starts with the text left before, and the converter is then as these
-- frames leave it.
pub read-Continues :
    (hex : ℕ → Bytes) (mode : Mode) (max_bytes : ℕ) (block : Bool) (arrivals : List Arrival)
    (f : Filter)
    → Continues hex mode arrivals
        (record f { visitor = record f.visitor { string = unread f }; next_read_start = 0 })
        (read hex mode max_bytes block arrivals f)
unfolding read read_buffer drop_returned
read-Continues hex mode max_bytes block arrivals f =
    let g = drop_returned f in
    let P : Outcome × Filter → Type 0 = λ r. Continues hex mode arrivals g r in
    let stays : (o : Outcome) → returned o ≡ [] → P (o, g) =
      λ o r. Splits-Continues hex mode arrivals g (o, g) (stays-Splits mode o g r refl) refl in
    let marked = record g { connection_aborted = true } in
    if-cases P (is_initial mode) {x = (succeeds [] false, g)} (stays (succeeds [] false) refl) (
      if-cases P (end_of_stream_reached g && no_bytes g.visitor.string) {x = (at_eof, g)}
        (stays at_eof refl)
        (if-cases P (stream_abort g) {x = (conn_aborted, marked)}
          (Splits-Continues hex mode arrivals g (conn_aborted, marked)
            (stays-Splits mode conn_aborted marked refl refl) refl)
          (if-cases P (is_eat_crlf mode) {x = (not_implemented, g)} (stays not_implemented refl)
            (pulled-Continues hex mode max_bytes block arrivals g refl))))
