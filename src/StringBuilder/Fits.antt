-- ===== src/StringBuilder/Fits.antt =====
-- Where the frames so far leave spdy_to_http_converter.cc and the builder of http_string_builder.cc.
use mod_spdy.Common.{◌≡◌, sym, ap, ◌∙◌, Bool, true, false, not, ◌&&◌, ◌||◌, List, [], ◌∷◌}
use mod_spdy.Frame.{no_bytes}
use mod_spdy.SpdyToHttp.{
  ConverterState, no_frames_yet, received_syn_stream, received_data, received_flag_fin, Converter,
  finish_request, finish_if,
}
use mod_spdy.SpdyToHttp.Request.{Input, takes_syn_stream, takes_headers, takes_data}
use mod_spdy.StringBuilder.{in_request_line, in_leading_headers, in_complete}
use mod_spdy.StringBuilder.Grammar.{Stage, all_valued}
use mod_spdy.StringBuilder.Stages.{stage}
use mod_spdy.StringBuilder.Ends.{
  body_state, finish_body-stage, finish_headers-stage, finish_request-use_chunking,
}

-- Whether there is a DATA frame, and one with bytes.
abbrev pub has_data_frame : List Input → Bool
has_data_frame [] = false
has_data_frame (takes_data bytes fin ∷ older) = true
has_data_frame (takes_headers block fin ∷ older) = has_data_frame older
has_data_frame (takes_syn_stream block fin ∷ older) = has_data_frame older

abbrev pub has_bytes : List Input → Bool
has_bytes [] = false
has_bytes (takes_data bytes fin ∷ older) = not (no_bytes bytes) || has_bytes older
has_bytes (takes_headers block fin ∷ older) = has_bytes older
has_bytes (takes_syn_stream block fin ∷ older) = has_bytes older

-- Every header of a HEADERS frame has a byte that is not NUL.
abbrev pub headers_valued : Input → Bool
headers_valued (takes_syn_stream block fin) = true
headers_valued (takes_headers block fin) = all_valued block
headers_valued (takes_data bytes fin) = true

unfoldable pub all_headers_valued : List Input → Bool
all_headers_valued [] = true
all_headers_valued (input ∷ older) = headers_valued input && all_headers_valued older

-- Whether the DCHECKs held, in the end.
abbrev pub checks_in_the_end : (chunking : Bool) → List Input → Bool
checks_in_the_end chunking inputs =
    not (has_data_frame inputs) || (not chunking || has_bytes inputs)

-- Where the frames so far leave the converter and its builder.
unfoldable pub FitsIn : ConverterState → List Input → Converter → Type 0
FitsIn no_frames_yet inputs c =
    (has_data_frame inputs ≡ false)
    × (has_bytes inputs ≡ false)
    × (stage c ≡ (in_request_line, true))
    × (c.trailing_headers ≡ [])
FitsIn received_syn_stream inputs c =
    (has_data_frame inputs ≡ false)
    × (has_bytes inputs ≡ false)
    × (stage c ≡ (in_leading_headers, true))
    × (c.trailing_headers ≡ [])
FitsIn received_data inputs c =
    (has_data_frame inputs ≡ true)
    × (stage c ≡ (body_state c.use_chunking (has_bytes inputs), true))
    × (all_valued c.trailing_headers ≡ true)
FitsIn received_flag_fin inputs c = stage c ≡ (in_complete, checks_in_the_end c.use_chunking inputs)

unfoldable pub Fits : List Input → Converter → Type 0
unfolding FitsIn
Fits inputs c = FitsIn c.state inputs c

abbrev pub body_stage : (chunking bytes : Bool) → Stage
body_stage chunking bytes = (body_state chunking bytes, true)

abbrev stage_after : (bytes chunking : Bool) → Stage
stage_after bytes chunking = (in_complete, not chunking || bytes)

abbrev stage_with : (k has : Bool) → Stage
stage_with k has = (in_complete, not has || k)

ended : {a b : Bool} (k : Bool) → a ≡ b → stage_with k a ≡ stage_with k b
ended k e = ap (stage_with k) e

-- The last part of each conversion.
pub finish_headers_if :
    (fin : Bool) (inputs : List Input) (c : Converter)
    → c.state ≡ received_syn_stream
    → FitsIn received_syn_stream inputs c
    → Fits inputs (finish_if fin c)
unfolding Fits finish_if finish_request FitsIn
finish_headers_if true inputs c s (no_data, no_bytes', h, t) =
    finish_headers-stage c s h
    ∙ ended (not (finish_request c).use_chunking || has_bytes inputs) (sym no_data)
finish_headers_if false inputs c s f = rw s f

pub finish_body_if :
    (fin : Bool) (inputs : List Input) (c : Converter)
    → c.state ≡ received_data
    → FitsIn received_data inputs c
    → Fits inputs (finish_if fin c)
unfolding Fits finish_if FitsIn finish_request
finish_body_if true inputs c s (has, h, v) =
    finish_body-stage (has_bytes inputs) c s h v
    ∙ ap (stage_after (has_bytes inputs)) (sym (finish_request-use_chunking c s))
    ∙ ended (not (finish_request c).use_chunking || has_bytes inputs) (sym has)
finish_body_if false inputs c s f = rw s f
