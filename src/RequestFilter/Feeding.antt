-- ===== src/RequestFilter/Feeding.antt =====
-- The frames that spdy_to_http_filter.cc takes from its stream, and their way into the buffer.
use mathlib.Core.List.{append-nil}
use mod_spdy.Common.{
  ap₂, ℕ, suc, take, ◌≡◌, refl, ap, sym, ◌∙◌, Bool, true, false, not, ◌||◌, List, [], ◌∷◌, ◌++◌,
  Option, none, some, if-cases,
}
use mod_spdy.Frame.{Bytes, Frame, RstStreamStatus}
use mod_spdy.SpdyToHttp.{Visit, Converter}
use mod_spdy.SpdyToHttp.Body.{append_assoc, append_nil}
use mod_spdy.SpdyToHttp.Request.{Input, convert}
use mod_spdy.StringBuilder
use mod_spdy.StringBuilder.{Builder, build, build_all}
use mod_spdy.RequestFilter.{
  Mode, Filter, Arrival, end_of_stream_reached, abort_stream, refusal, data_size, settle, decode,
  decoded, decode_if, decode_arrival, get_next_frame, stream_abort, wants_more, pull,
}

-- A text that starts with another.
abbrev pub Extends : (new old : Bytes) → Type 0
Extends new old = (more : Bytes) × (new ≡ old ++ more)

longer_trans : (a b c : Bytes) → Extends b a → Extends c b → Extends c a
longer_trans a b c (x, e) (y, h) = (x ++ y, h ∙ ap (λ t. t ++ y) e ∙ append_assoc a x y)

pub longer_refl : (a : Bytes) → Extends a a
longer_refl a = ([], sym (append_nil a))

pub build_all-Extends :
    (hex : ℕ → Bytes) (calls : List Visit) (b : Builder)
    → Extends (build_all hex calls b).string b.string
unfolding build_all build
build_all-Extends hex [] b = longer_refl b.string
build_all-Extends hex (call ∷ calls) b =
    longer_trans b.string (build hex call b).string _ (StringBuilder.text hex call b.state, refl)
      (build_all-Extends hex calls (build hex call b))

-- The frames that the converter gets, and what it makes of them: its calls, one frame after the other.
abbrev pub add_input : Option Input → List Input → List Input
add_input none inputs = inputs
add_input (some input) inputs = input ∷ inputs

abbrev pub input_of : Option Frame → Option Input
input_of none = none
input_of (some frame) = decoded frame

unfoldable pub inputs_of : List Arrival → List Input
inputs_of [] = []
inputs_of (arrival ∷ arrivals) = add_input (input_of arrival.frame) (inputs_of arrivals)

unfoldable pub visits_of : List Input → Converter → List Visit
visits_of [] c = []
visits_of (input ∷ inputs) c =
    let c' = (convert input c).1 in c'.visitor ++ visits_of inputs (record c' { visitor = [] })

unfoldable pub converter_after : List Input → Converter → Converter
converter_after [] c = c
converter_after (input ∷ inputs) c =
    converter_after inputs (record (convert input c).1 { visitor = [] })

build_all-append :
    (hex : ℕ → Bytes) (calls more : List Visit) (b : Builder)
    → build_all hex (calls ++ more) b ≡ build_all hex more (build_all hex calls b)
unfolding build_all
build_all-append hex [] more b = refl
build_all-append hex (call ∷ calls) more b = build_all-append hex calls more (build hex call b)

-- The converter has got the frames, and the string builder all its calls.
abbrev pub Feeds : (hex : ℕ → Bytes) → List Input → Filter → Filter → Type 0
Feeds hex inputs f f' =
    (f'.visitor ≡ build_all hex (visits_of inputs f.converter) f.visitor)
    × (f'.converter ≡ converter_after inputs f.converter)
    × (f'.next_read_start ≡ f.next_read_start)

settle-Feeds :
    (hex : ℕ → Bytes) (o : Option RstStreamStatus) (size : ℕ) (f : Filter)
    → Feeds hex [] f (settle o size f).1
unfolding settle abort_stream build_all visits_of converter_after
settle-Feeds hex none size f = (refl, refl, refl)
settle-Feeds hex (some status) size f = (refl, refl, refl)

decode-Feeds :
    (hex : ℕ → Bytes) (input : Input) (f : Filter) → Feeds hex (input ∷ []) f (decode hex input f).1
unfolding decode visits_of converter_after build_all
decode-Feeds hex input f =
    let (status, converter) = convert input f.converter in
    let built = record f {
      visitor = build_all hex converter.visitor f.visitor;
      converter = record converter { visitor = [] };
    } in
    let (same, kept, start) = settle-Feeds hex (refusal input status) (data_size input) built in
    (
      same ∙ ap (λ calls. build_all hex calls f.visitor) (sym (append-nil converter.visitor)),
      kept,
      start,
    )

decode_if-Feeds :
    (hex : ℕ → Bytes) (o : Option Input) (f : Filter)
    → Feeds hex (add_input o []) f (decode_if hex o f).1
unfolding decode_if abort_stream build_all visits_of converter_after
decode_if-Feeds hex none f = (refl, refl, refl)
decode_if-Feeds hex (some input) f = decode-Feeds hex input f

decode_arrival-Feeds :
    (hex : ℕ → Bytes) (o : Option Frame) (f : Filter)
    → Feeds hex (add_input (input_of o) []) f (decode_arrival hex o f).1
unfolding decode_arrival build_all visits_of converter_after
decode_arrival-Feeds hex none f = (refl, refl, refl)
decode_arrival-Feeds hex (some frame) f = decode_if-Feeds hex (decoded frame) f

get_next_frame-Feeds :
    (hex : ℕ → Bytes) (arrival : Arrival) (f : Filter)
    → Feeds hex (add_input (input_of arrival.frame) []) f (get_next_frame hex arrival f).1
unfolding get_next_frame
get_next_frame-Feeds hex arrival f =
    decode_arrival-Feeds hex arrival.frame
      (record f { is_aborted = f.is_aborted || arrival.aborted })

fed_twice :
    (hex : ℕ → Bytes) (o : Option Input) (inputs : List Input) (f g h : Filter)
    → Feeds hex (add_input o []) f g
    → Feeds hex inputs g h
    → Feeds hex (add_input o inputs) f h
unfolding visits_of converter_after build_all
fed_twice hex none inputs f g h (a, b, c) (d, e, k) = (
  d ∙ ap₂ (λ c v. build_all hex (visits_of inputs c) v) b a,
  e ∙ ap (converter_after inputs) b,
  k ∙ c,
)
fed_twice hex (some input) inputs f g h (a, b, c) (d, e, k) =
    let c' = (convert input f.converter).1 in
    let built = a ∙ ap (λ calls. build_all hex calls f.visitor) (append-nil c'.visitor) in
    (
      d
          ∙ ap₂ (λ c v. build_all hex (visits_of inputs c) v) b built
          ∙ sym (
              build_all-append hex c'.visitor (visits_of inputs (record c' { visitor = [] }))
                f.visitor),
      e ∙ ap (converter_after inputs) b,
      k ∙ c,
    )

-- The loop takes the first of the frames that come.
abbrev pub Pulls : (hex : ℕ → Bytes) → List Arrival → Filter → Filter → Type 0
Pulls hex arrivals f f' = (n : ℕ) × Feeds hex (inputs_of (take n arrivals)) f f'

none-Feeds :
    (hex : ℕ → Bytes) (f : Filter) (aborted : Bool)
    → Feeds hex [] f (record f { is_aborted = aborted })
unfolding build_all visits_of converter_after
none-Feeds hex f aborted = (refl, refl, refl)

pub pull-Pulls :
    (hex : ℕ → Bytes) (mode : Mode) (max_bytes : ℕ) (arrivals : List Arrival) (f : Filter)
    → Pulls hex arrivals f (pull hex mode max_bytes arrivals f).1
unfolding pull inputs_of
pull-Pulls hex mode max_bytes [] f = (0, none-Feeds hex f f.is_aborted)
pull-Pulls hex mode max_bytes (arrival ∷ arrivals) f =
    let f' = (get_next_frame hex arrival f).1 in
    let got = (get_next_frame hex arrival f).0 in
    let now = record f { is_aborted = f.is_aborted || arrival.aborted } in
    let one = get_next_frame-Feeds hex arrival f in
    let (n, all) = pull-Pulls hex mode max_bytes arrivals f' in
    let P : Bool × Filter → Type 0 = λ r. Pulls hex (arrival ∷ arrivals) f r.1 in
    if-cases P (not (wants_more mode max_bytes f.visitor.string)) {x = (false, f)}
      (0, none-Feeds hex f f.is_aborted)
      (if-cases P (end_of_stream_reached f) {x = (stream_abort now, now)}
        (0, none-Feeds hex f now.is_aborted)
        (if-cases P (stream_abort f') {x = (true, f')} (1, one)
          (if-cases P got {y = (false, f')}
            (
              suc n,
              fed_twice hex (input_of arrival.frame) (inputs_of (take n arrivals)) f f'
                  (pull hex mode max_bytes arrivals f').1 one all,
            )
            (1, one))))
