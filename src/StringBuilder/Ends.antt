-- ===== src/StringBuilder/Ends.antt =====
-- The end of a request: what FinishRequest of spdy_to_http_converter.cc does to the state of the
-- builder of http_string_builder.cc.
use mod_spdy.Common.{◌≡◌, refl, ap, ◌∙◌, Bool, true, false, not, ◌||◌, [], ◌∷◌, ◌++◌, if◌then◌else◌}
use mod_spdy.Frame.{Bytes, HeaderBlock, no_bytes}
use mod_spdy.SpdyToHttp.{
  data_chunk, raw_data, data_chunks_complete, trailing_headers_complete, complete,
  received_syn_stream, received_data, Converter, visit, end_of_leading_headers,
  append_trailing_headers, trailing_calls, finish_body, finish_request,
}
use mod_spdy.StringBuilder.{
  BuilderState, in_request_line, in_leading_headers, in_leading_headers_complete, in_raw_data,
  in_data_chunks, in_data_chunks_complete, in_trailing_headers, in_complete, allows, next_state,
}
use mod_spdy.StringBuilder.Grammar.{Stage, follow, follow-append, follow-trailing_calls, all_valued}
use mod_spdy.StringBuilder.Stages.{stage, stage-visit, end_of_leading_headers-stage}

-- The state after the leading headers and what is passed on of the body.
abbrev pub body_state : (chunking bytes : Bool) → BuilderState
body_state true true = in_data_chunks
body_state false true = in_raw_data
body_state chunking false = in_leading_headers_complete

follow-body :
    (chunking bytes : Bool) (text : Bytes)
    → follow
        ((if chunking then data_chunk text else raw_data text) ∷ [])
        (body_state chunking bytes, true)
      ≡ (body_state chunking true, true)
unfolding follow allows next_state
follow-body true true text = refl
follow-body true false text = refl
follow-body false true text = refl
follow-body false false text = refl

-- Data of a frame.
pub stage-data :
    (bytes : Bool) (text : Bytes) (c : Converter)
    → stage c ≡ (body_state c.use_chunking bytes, true)
    → stage (
        if no_bytes text
        then c
        else visit ((if c.use_chunking then data_chunk text else raw_data text) ∷ []) c)
      ≡ (body_state c.use_chunking (not (no_bytes text) || bytes), true)
stage-data bytes [] c h = h
stage-data bytes (t ∷ ts) c h =
    let call = (if c.use_chunking then data_chunk (t ∷ ts) else raw_data (t ∷ ts)) ∷ [] in
    stage-visit call c ∙ ap (follow call) h ∙ follow-body c.use_chunking bytes (t ∷ ts)

append_trailing-stage :
    (k : Bool) (block : HeaderBlock) (c : Converter)
    → stage c ≡ (in_data_chunks_complete, k)
    → all_valued block ≡ true
    → stage (visit (complete ∷ []) (append_trailing_headers block c)) ≡ (in_complete, k)
unfolding append_trailing_headers follow allows next_state
append_trailing-stage true [] c h v = stage-visit (complete ∷ []) c ∙ ap (follow (complete ∷ [])) h
append_trailing-stage false [] c h v = stage-visit (complete ∷ []) c ∙ ap (follow (complete ∷ [])) h
append_trailing-stage k (header ∷ block) c h v =
    let start : Stage = (in_request_line, true) in
    let calls = trailing_calls (header ∷ block) in
    follow-append ((c.visitor ++ calls) ++ trailing_headers_complete ∷ []) (complete ∷ []) start
    ∙ ap (follow (complete ∷ [])) (
        follow-append (c.visitor ++ calls) (trailing_headers_complete ∷ []) start
        ∙ ap (follow (trailing_headers_complete ∷ [])) (
            follow-append c.visitor calls start
            ∙ ap (follow calls) h
            ∙ follow-trailing_calls k header block v))
    ∙ ends k
  where
    ends :
        (k : Bool)
        → follow (complete ∷ []) (follow (trailing_headers_complete ∷ []) (in_trailing_headers, k))
          ≡ (in_complete, k)
    ends true = refl
    ends false = refl

follow-no_more :
    (bytes : Bool)
    → follow (data_chunks_complete ∷ []) (body_state true bytes, true)
      ≡ (in_data_chunks_complete, bytes)
unfolding follow allows next_state
follow-no_more true = refl
follow-no_more false = refl

follow-raw_end :
    (bytes : Bool) → follow (complete ∷ []) (body_state false bytes, true) ≡ (in_complete, true)
unfolding follow allows next_state
follow-raw_end true = refl
follow-raw_end false = refl

body_end :
    (chunking bytes : Bool) (c : Converter)
    → stage c ≡ (body_state chunking bytes, true)
    → all_valued c.trailing_headers ≡ true
    → stage (
        visit (complete ∷ []) (
          if chunking
          then append_trailing_headers c.trailing_headers (visit (data_chunks_complete ∷ []) c)
          else c))
      ≡ (in_complete, not chunking || bytes)
body_end true bytes c h v =
    let calls = data_chunks_complete ∷ [] in
    append_trailing-stage bytes c.trailing_headers (visit calls c)
      (stage-visit calls c ∙ ap (follow calls) h ∙ follow-no_more bytes) v
body_end false bytes c h v =
    stage-visit (complete ∷ []) c ∙ ap (follow (complete ∷ [])) h ∙ follow-raw_end bytes

-- The end of a request with a body.
pub finish_body-stage :
    (bytes : Bool) (c : Converter)
    → c.state ≡ received_data
    → stage c ≡ (body_state c.use_chunking bytes, true)
    → all_valued c.trailing_headers ≡ true
    → stage (finish_request c) ≡ (in_complete, not c.use_chunking || bytes)
unfolding finish_body finish_request
finish_body-stage bytes c s h v =
    ap (λ x. stage (visit (complete ∷ []) (finish_body x c))) s
    ∙ body_end c.use_chunking bytes c h v

-- The end of a request without a body.
pub finish_headers-stage :
    (c : Converter)
    → c.state ≡ received_syn_stream
    → stage c ≡ (in_leading_headers, true)
    → stage (finish_request c) ≡ (in_complete, true)
unfolding finish_body finish_request follow allows next_state
finish_headers-stage c s h =
    ap (λ x. stage (visit (complete ∷ []) (finish_body x c))) s
    ∙ stage-visit (complete ∷ []) (end_of_leading_headers c)
    ∙ ap (follow (complete ∷ [])) (end_of_leading_headers-stage c h)

append_trailing-use_chunking :
    (block : HeaderBlock) (c : Converter)
    → (append_trailing_headers block c).use_chunking ≡ c.use_chunking
unfolding append_trailing_headers
append_trailing-use_chunking [] c = refl
append_trailing-use_chunking (header ∷ block) c = refl

finish_body-use_chunking :
    (b : Bool) (c : Converter)
    → (if b
        then append_trailing_headers c.trailing_headers (visit (data_chunks_complete ∷ []) c)
        else c).use_chunking
      ≡ c.use_chunking
finish_body-use_chunking true c =
    append_trailing-use_chunking c.trailing_headers (visit (data_chunks_complete ∷ []) c)
finish_body-use_chunking false c = refl

pub finish_request-use_chunking :
    (c : Converter) → c.state ≡ received_data → (finish_request c).use_chunking ≡ c.use_chunking
unfolding finish_request finish_body
finish_request-use_chunking c s =
    ap (λ x. (finish_body x c).use_chunking) s ∙ finish_body-use_chunking c.use_chunking c
