-- ===== src/SpdyToHttp/Delivery.antt =====
-- The body of a request: what comes in with the DATA frames goes out through
-- spdy_to_http_converter.cc.
use mod_spdy.Protocol.Headers.{insert_new}
use mod_spdy.Common.{
  if-cases, ◌≡◌, refl, sym, subst, ap, ◌∙◌, Bool, List, [], ◌∷◌, ◌++◌, Option, none, some,
  if◌then◌else◌, ◌>>=◌,
}
use mod_spdy.Frame.{Bytes, HeaderBlock}
use mod_spdy.Protocol.{SpdyVersion}
use mod_spdy.SpdyToHttp.{
  request_line, raw_data, data_chunk, ConverterState, no_frames_yet, received_syn_stream,
  received_data, received_flag_fin, Converter, create, visit, generate_leading_headers, start_body,
  generate_request_line, convert_first, convert_syn_stream_frame, buffer_trailing_headers,
  convert_headers_frame, convert_data, convert_data_frame,
}
use mod_spdy.SpdyToHttp.Request.{
  Input, takes_syn_stream, takes_headers, takes_data, convert, on_success, convert_all,
}
use mod_spdy.SpdyToHttp.Body.{
  body, body-append, body-visit, append_nil, generate_leading_headers-SameBody, start_body-SameBody,
  finish_if-SameBody,
}

-- The data of the DATA frames, the newest frame first.
unfoldable pub all_data : List Input → Bytes
all_data [] = []
all_data (takes_data bytes fin ∷ older) = all_data older ++ bytes
all_data (takes_headers block fin ∷ older) = all_data older
all_data (takes_syn_stream block fin ∷ older) = all_data older

unfoldable BodyAfter : Bytes → Option Converter → Type 0
BodyAfter bytes none = Unit
BodyAfter bytes (some c) = body c.visitor ≡ bytes

convert_data-body :
    (bytes : Bytes) (fin : Bool) (c : Converter)
    → BodyAfter (body c.visitor ++ bytes) (on_success (convert_data bytes fin c))
unfolding convert_data on_success BodyAfter body
convert_data-body [] fin c = finish_if-SameBody fin c ∙ sym (append_nil (body c.visitor))
convert_data-body (b ∷ bs) fin c =
    let call = (if c.use_chunking then data_chunk (b ∷ bs) else raw_data (b ∷ bs)) ∷ [] in
    finish_if-SameBody fin (visit call c)
    ∙ body-append c.visitor call
    ∙ if-cases (λ k. body c.visitor ++ body (k ∷ []) ≡ body c.visitor ++ b ∷ bs) c.use_chunking
        {x = data_chunk (b ∷ bs)} {y = raw_data (b ∷ bs)}
        (ap (λ t. body c.visitor ++ t) (append_nil (b ∷ bs)))
        (ap (λ t. body c.visitor ++ t) (append_nil (b ∷ bs)))

-- The data that a frame adds.
abbrev data_of : Input → Bytes
data_of (takes_data bytes fin) = bytes
data_of (takes_headers block fin) = []
data_of (takes_syn_stream block fin) = []

convert_first-body :
    (block : HeaderBlock) (fin : Bool) (line : Option (Bytes × Bytes × Bytes)) (c : Converter)
    → BodyAfter (body c.visitor) (on_success (convert_first block fin line c))
unfolding convert_first on_success BodyAfter body
convert_first-body block fin none c = tt
convert_first-body block fin (some (method, path, version)) c =
    let line = request_line method path version ∷ [] in
    finish_if-SameBody fin (generate_leading_headers block (visit line c))
    ∙ generate_leading_headers-SameBody block (visit line c)
    ∙ body-visit line c refl

convert-body :
    (s : ConverterState) (input : Input) (c : Converter)
    → BodyAfter
        (body c.visitor ++ data_of input)
        (on_success (convert input (record c { state = s })))
unfolding convert convert_syn_stream_frame convert_headers_frame convert_data_frame on_success
    BodyAfter buffer_trailing_headers
convert-body no_frames_yet (takes_syn_stream block fin) c =
    subst
      (λ t. BodyAfter t (
        on_success (
          convert_first block fin (generate_request_line c.spdy_version block)
            (record c { state = received_syn_stream }))))
      (sym (append_nil (body c.visitor)))
      (convert_first-body block fin (generate_request_line c.spdy_version block)
        (record c { state = received_syn_stream }))
convert-body no_frames_yet (takes_headers block fin) c = tt
convert-body no_frames_yet (takes_data bytes fin) c = tt
convert-body received_syn_stream (takes_syn_stream block fin) c = tt
convert-body received_syn_stream (takes_headers block fin) c =
    let here = record c { state = received_syn_stream } in
    finish_if-SameBody fin (generate_leading_headers block here)
    ∙ generate_leading_headers-SameBody block here
    ∙ sym (append_nil (body c.visitor))
convert-body received_syn_stream (takes_data bytes fin) c =
    let here = record c { state = received_syn_stream } in
    subst (λ t. BodyAfter (t ++ bytes) (on_success (convert_data bytes fin (start_body here))))
      (start_body-SameBody here) (convert_data-body bytes fin (start_body here))
convert-body received_data (takes_syn_stream block fin) c = tt
convert-body received_data (takes_headers block fin) c =
    let here = record c { state = received_data } in
    finish_if-SameBody fin (buffer_trailing_headers block here)
    ∙ if-cases (λ c'. body c'.visitor ≡ body c.visitor) c.use_chunking
        {x = record here { trailing_headers = insert_new block c.trailing_headers }} {y = here} refl
        refl
    ∙ sym (append_nil (body c.visitor))
convert-body received_data (takes_data bytes fin) c =
    convert_data-body bytes fin (record c { state = received_data })
convert-body received_flag_fin (takes_syn_stream block fin) c = tt
convert-body received_flag_fin (takes_headers block fin) c = tt
convert-body received_flag_fin (takes_data bytes fin) c = tt

all_data-step :
    (input : Input) (older : List Input)
    → all_data (input ∷ older) ≡ all_data older ++ data_of input
unfolding all_data
all_data-step (takes_data bytes fin) older = refl
all_data-step (takes_headers block fin) older = sym (append_nil (all_data older))
all_data-step (takes_syn_stream block fin) older = sym (append_nil (all_data older))

on_success-body :
    (input : Input) (bytes : Bytes) (o : Option Converter)
    → BodyAfter bytes o
    → BodyAfter (bytes ++ data_of input) (o >>= λ c. on_success (convert input c))
unfolding BodyAfter
on_success-body input bytes none f = tt
on_success-body input bytes (some c) f =
    subst (λ t. BodyAfter (t ++ data_of input) (on_success (convert input c))) f
      (convert-body c.state input c)

convert_all-BodyAfter :
    (version : SpdyVersion) (inputs : List Input)
    → BodyAfter (all_data inputs) (convert_all inputs (create version))
unfolding convert_all BodyAfter create body all_data
convert_all-BodyAfter version [] = refl
convert_all-BodyAfter version (input ∷ older) =
    subst (λ t. BodyAfter t (convert_all (input ∷ older) (create version)))
      (sym (all_data-step input older))
      (on_success-body input (all_data older) (convert_all older (create version))
        (convert_all-BodyAfter version older))

-- If a converter that starts anew converts all the frames of a stream, then what its visitor gets by
-- OnRawData and OnDataChunk is, one call after the other, the data of the DATA frames in their order.
pub convert_all-body :
    (version : SpdyVersion) (inputs : List Input) (c : Converter)
    → convert_all inputs (create version) ≡ some c
    → body c.visitor ≡ all_data inputs
unfolding BodyAfter
convert_all-body version inputs c e =
    subst (BodyAfter (all_data inputs)) e (convert_all-BodyAfter version inputs)
