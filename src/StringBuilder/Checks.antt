-- ===== src/StringBuilder/Checks.antt =====
-- The DCHECKs of http_string_builder.cc when spdy_to_http_converter.cc is its caller.
use mod_spdy.Common.{
  ◌≡◌, refl, sym, ap, ◌∙◌, Bool, true, false, List, [], ◌∷◌, Option, none, some, if◌then◌else◌,
  Bool-cases, inl, inr, ◌>>=◌,
}
use mod_spdy.Frame.{Bytes, HeaderBlock}
use mod_spdy.Protocol.{SpdyVersion}
use mod_spdy.SpdyToHttp.{
  Visit, request_line, data_chunk, raw_data, data_chunks_complete, trailing_headers_complete,
  complete, ConverterState, no_frames_yet, received_syn_stream, received_data, received_flag_fin,
  Status, spdy_converter_success, Converter, visit, generate_request_line, generate_leading_headers,
  end_of_leading_headers, append_trailing_headers, trailing_calls, start_body, finish_body,
  finish_request, finish_if, convert_first, convert_syn_stream_frame, buffer_trailing_headers,
  convert_headers_frame, convert_data, convert_data_frame,
}
use mod_spdy.SpdyToHttp
use mod_spdy.SpdyToHttp.Request.{
  Input, takes_syn_stream, takes_headers, takes_data, convert, on_success, convert_all,
}
use mod_spdy.StringBuilder.{
  BuilderState, in_request_line, in_leading_headers, in_leading_headers_complete, in_raw_data,
  in_data_chunks, in_data_chunks_complete, in_trailing_headers, in_trailing_headers_complete,
  in_complete, allows, next_state,
}
use mod_spdy.StringBuilder
use mod_spdy.StringBuilder.Grammar.{follow, all_valued, all_valued-insert_new, and_true}
use mod_spdy.StringBuilder.Stages.{
  stage, stage-visit, generate_leading_headers-IsOpen, start_body-stage,
}
use mod_spdy.StringBuilder.Ends.{stage-data}
use mod_spdy.StringBuilder.Fits.{
  has_bytes, headers_valued, all_headers_valued, FitsIn, Fits, body_stage, finish_headers_if,
  finish_body_if,
}

-- `Fits` for the converter, if there is one.
unfoldable pub FitsAfter : List Input → Option Converter → Type 0
FitsAfter inputs none = Unit
FitsAfter inputs (some c) = Fits inputs c

convert_first-Fits :
    (block : HeaderBlock) (fin : Bool) (line : Option (Bytes × Bytes × Bytes)) (inputs : List Input)
    (c : Converter)
    → FitsIn no_frames_yet inputs c
    → c.state ≡ received_syn_stream
    → FitsAfter (takes_syn_stream block fin ∷ inputs) (on_success (convert_first block fin line c))
unfolding convert_first on_success FitsIn FitsAfter follow allows next_state
convert_first-Fits block fin none inputs c f s = tt
convert_first-Fits block fin (some (method, path, version)) inputs c (no_data, none', h, t) s =
    let line = request_line method path version ∷ [] in
    let opened =
      generate_leading_headers-IsOpen block (visit line c)
        (stage-visit line c ∙ ap (follow line) h) in
    finish_headers_if fin (takes_syn_stream block fin ∷ inputs)
      (generate_leading_headers block (visit line c)) (opened.same_state ∙ s)
      (no_data, none', opened.stage_is, opened.same_trailing ∙ t)

-- What buffering trailing headers changes.
buffer_trailing-valued :
    (block : HeaderBlock) (c : Converter)
    → all_valued block ≡ true
    → all_valued c.trailing_headers ≡ true
    → all_valued (buffer_trailing_headers block c).trailing_headers ≡ true
unfolding buffer_trailing_headers
buffer_trailing-valued block c n h = elim (Bool-cases c.use_chunking) [
  | inl chunking ↦ simp chunking (all_valued-insert_new block c.trailing_headers n h)
  | inr raw ↦ simp raw h
]

buffer_trailing-keeps :
    (block : HeaderBlock) (c : Converter)
    → (stage (buffer_trailing_headers block c) ≡ stage c)
      × ((buffer_trailing_headers block c).state ≡ c.state)
      × ((buffer_trailing_headers block c).use_chunking ≡ c.use_chunking)
unfolding buffer_trailing_headers
buffer_trailing-keeps block c = elim (Bool-cases c.use_chunking) [
  | inl chunking ↦ simp chunking (refl, refl, refl)
  | inr raw ↦ simp raw (refl, refl, refl)
]

start_body-keeps :
    (c : Converter)
    → ((start_body c).state ≡ received_data)
      × ((start_body c).trailing_headers ≡ c.trailing_headers)
      × ((start_body c).use_chunking ≡ c.use_chunking)
unfolding start_body end_of_leading_headers
start_body-keeps c = elim (Bool-cases c.use_chunking) [
  | inl chunking ↦ elim (Bool-cases c.seen_accept_encoding) [
    | inl seen ↦ simp (chunking, seen) (refl, refl, refl)
    | inr unseen ↦ simp (chunking, unseen) (refl, refl, refl)
  ]
  | inr raw ↦ elim (Bool-cases c.seen_accept_encoding) [
    | inl seen ↦ simp (raw, seen) (refl, refl, refl)
    | inr unseen ↦ simp (raw, unseen) (refl, refl, refl)
  ]
]

data-Fits :
    (bytes : Bytes) (fin : Bool) (inputs : List Input) (c : Converter)
    → c.state ≡ received_data
    → stage c ≡ body_stage c.use_chunking (has_bytes inputs)
    → all_valued c.trailing_headers ≡ true
    → FitsAfter (takes_data bytes fin ∷ inputs) (on_success (convert_data bytes fin c))
unfolding convert_data on_success FitsAfter FitsIn
data-Fits [] fin inputs c s h v = finish_body_if fin (takes_data [] fin ∷ inputs) c s (refl, h, v)
data-Fits (b ∷ bs) fin inputs c s h v =
    finish_body_if fin (takes_data (b ∷ bs) fin ∷ inputs)
      (visit ((if c.use_chunking then data_chunk (b ∷ bs) else raw_data (b ∷ bs)) ∷ []) c) s
      (refl, stage-data (has_bytes inputs) (b ∷ bs) c h, v)

convert-FitsIn :
    (s : ConverterState) (input : Input) (inputs : List Input) (c : Converter)
    → FitsIn s inputs c
    → headers_valued input ≡ true
    → FitsAfter (input ∷ inputs) (on_success (convert input (record c { state = s })))
unfolding convert convert_syn_stream_frame convert_headers_frame convert_data_frame on_success
    FitsIn FitsAfter convert_data all_valued
convert-FitsIn no_frames_yet (takes_syn_stream block fin) inputs c f v =
    convert_first-Fits block fin (generate_request_line c.spdy_version block) inputs
      (record c { state = received_syn_stream }) f refl
convert-FitsIn no_frames_yet (takes_headers block fin) inputs c f v = tt
convert-FitsIn no_frames_yet (takes_data bytes fin) inputs c f v = tt
convert-FitsIn received_syn_stream (takes_syn_stream block fin) inputs c f v = tt
convert-FitsIn received_syn_stream (takes_headers block fin) inputs c (no_data, none', h, t) v =
    let here = record c { state = received_syn_stream } in
    let opened = generate_leading_headers-IsOpen block here h in
    finish_headers_if fin (takes_headers block fin ∷ inputs) (generate_leading_headers block here)
      opened.same_state (no_data, none', opened.stage_is, opened.same_trailing ∙ t)
convert-FitsIn received_syn_stream (takes_data bytes fin) inputs c (no_data, none', h, t) v =
    let here = record c { state = received_syn_stream } in
    let (state_is, same_trailing, same_chunking) = start_body-keeps here in
    data-Fits bytes fin inputs (start_body here) state_is
      (start_body-stage here h ∙ ap (body_stage (start_body here).use_chunking) (sym none'))
      (ap all_valued (same_trailing ∙ t))
convert-FitsIn received_data (takes_syn_stream block fin) inputs c f v = tt
convert-FitsIn received_data (takes_headers block fin) inputs c (has, h, valued) v =
    let here = record c { state = received_data } in
    let (same_stage, same_state, same_chunking) = buffer_trailing-keeps block here in
    finish_body_if fin (takes_headers block fin ∷ inputs) (buffer_trailing_headers block here)
      same_state
      (
        has,
        same_stage ∙ h ∙ ap (λ b. body_stage b (has_bytes inputs)) (sym same_chunking),
        buffer_trailing-valued block here v valued,
      )
convert-FitsIn received_data (takes_data bytes fin) inputs c (has, h, valued) v =
    data-Fits bytes fin inputs (record c { state = received_data }) refl h valued
convert-FitsIn received_flag_fin (takes_syn_stream block fin) inputs c f v = tt
convert-FitsIn received_flag_fin (takes_headers block fin) inputs c f v = tt
convert-FitsIn received_flag_fin (takes_data bytes fin) inputs c f v = tt

on_success-Fits :
    (input : Input) (inputs : List Input) (o : Option Converter)
    → FitsAfter inputs o
    → headers_valued input ≡ true
    → FitsAfter (input ∷ inputs) (o >>= λ c. on_success (convert input c))
unfolding FitsAfter Fits
on_success-Fits input inputs none f v = tt
on_success-Fits input inputs (some c) f v = convert-FitsIn c.state input inputs c f v

pub convert_all-Fits :
    (version : SpdyVersion) (inputs : List Input)
    → all_headers_valued inputs ≡ true
    → FitsAfter inputs (convert_all inputs (SpdyToHttp.create version))
unfolding convert_all FitsAfter FitsIn Fits SpdyToHttp.create follow all_headers_valued
convert_all-Fits version [] v = (refl, refl, refl, refl)
convert_all-Fits version (input ∷ older) v =
    let (one, rest) = and_true (headers_valued input) (all_headers_valued older) v in
    on_success-Fits input older (convert_all older (SpdyToHttp.create version))
      (convert_all-Fits version older rest) one

abbrev pub is_finished : ConverterState → Bool
is_finished received_flag_fin = true
is_finished _ = false
