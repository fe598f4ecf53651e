-- ===== src/SpdyToHttp/Body.antt =====
-- The body of a request on its way through spdy_to_http_converter.cc.
use mod_spdy.Protocol.Http
use mod_spdy.Protocol.Text.{bytes_eq}
use mod_spdy.Common.{
  if-cases, ◌≡◌, refl, sym, ap, ◌∙◌, Bool, true, false, ◌||◌, List, [], ◌∷◌, ◌++◌, map,
  if◌then◌else◌,
}
use mod_spdy.Frame.{Bytes, HeaderBlock}
use mod_spdy.SpdyToHttp.{
  Visit, request_line, leading_header, leading_headers_complete, raw_data, data_chunk,
  data_chunks_complete, trailing_header, trailing_headers_complete, complete, ConverterState,
  no_frames_yet, received_syn_stream, received_data, received_flag_fin, Converter, visit, http_name,
  is_spdy_header, insert_leading_header, generate_http_header, generate_leading_header,
  generate_leading_headers, end_of_leading_headers, append_trailing_headers, trailing_calls,
  start_body, finish_body, finish_request, finish_if,
}
use mod_spdy.SpdyToHttp.Values.{values}

-- What OnRawData and OnDataChunk got.
unfoldable pub body : List Visit → Bytes
body [] = []
body (raw_data bytes ∷ calls) = bytes ++ body calls
body (data_chunk bytes ∷ calls) = bytes ++ body calls
body (_ ∷ calls) = body calls

pub append_assoc : (xs ys zs : Bytes) → (xs ++ ys) ++ zs ≡ xs ++ (ys ++ zs)
append_assoc [] ys zs = refl
append_assoc (x ∷ xs) ys zs = ap (λ t. x ∷ t) (append_assoc xs ys zs)

pub append_nil : (xs : Bytes) → xs ++ [] ≡ xs
append_nil [] = refl
append_nil (x ∷ xs) = ap (λ t. x ∷ t) (append_nil xs)

pub body-append : (xs ys : List Visit) → body (xs ++ ys) ≡ body xs ++ body ys
unfolding body
body-append [] ys = refl
body-append (raw_data bytes ∷ xs) ys =
    ap (λ t. bytes ++ t) (body-append xs ys) ∙ sym (append_assoc bytes (body xs) (body ys))
body-append (data_chunk bytes ∷ xs) ys =
    ap (λ t. bytes ++ t) (body-append xs ys) ∙ sym (append_assoc bytes (body xs) (body ys))
body-append (request_line m p v ∷ xs) ys = body-append xs ys
body-append (leading_header k v ∷ xs) ys = body-append xs ys
body-append (leading_headers_complete ∷ xs) ys = body-append xs ys
body-append (data_chunks_complete ∷ xs) ys = body-append xs ys
body-append (trailing_header k v ∷ xs) ys = body-append xs ys
body-append (trailing_headers_complete ∷ xs) ys = body-append xs ys
body-append (complete ∷ xs) ys = body-append xs ys

-- Calls without data leave the body alone.
pub body-visit :
    (calls : List Visit) (c : Converter)
    → body calls ≡ []
    → body (visit calls c).visitor ≡ body c.visitor
body-visit calls c h =
    body-append c.visitor calls ∙ ap (λ t. body c.visitor ++ t) h ∙ append_nil (body c.visitor)

body-leading : (key : Bytes) (vs : List Bytes) → body (map (leading_header key) vs) ≡ []
unfolding body
body-leading key [] = refl
body-leading key (v ∷ vs) = body-leading key vs

body-trailing : (key : Bytes) (vs : List Bytes) → body (map (trailing_header key) vs) ≡ []
unfolding body
body-trailing key [] = refl
body-trailing key (v ∷ vs) = body-trailing key vs

body-trailing_calls : (block : HeaderBlock) → body (trailing_calls block) ≡ []
unfolding body trailing_calls
body-trailing_calls [] = refl
body-trailing_calls ((key, value) ∷ block) =
    body-append (map (trailing_header key) (values value)) (trailing_calls block)
    ∙ ap (λ t. t ++ body (trailing_calls block)) (body-trailing key (values value))
    ∙ body-trailing_calls block

abbrev pub SameBody : Converter → Converter → Type 0
SameBody c old = body c.visitor ≡ body old.visitor

insert_leading_header-SameBody :
    (key value : Bytes) (c : Converter) → SameBody (insert_leading_header key value c) c
unfolding insert_leading_header
insert_leading_header-SameBody key value c =
    let calls = map (leading_header key) (values value) in
    if-cases (λ c'. SameBody (visit calls c') c) (bytes_eq key Http.accept_encoding)
      (body-visit calls (record c { seen_accept_encoding = true })
        (body-leading key (values value)))
      (body-visit calls c (body-leading key (values value)))

generate_http_header-SameBody :
    (key value : Bytes) (c : Converter) → SameBody (generate_http_header key value c) c
unfolding generate_http_header
generate_http_header-SameBody key value c =
    let name = http_name c.spdy_version key in
    let skipped = bytes_eq key Http.transfer_encoding in
    let noted = record c { use_chunking = false } in
    if-cases (λ c'. SameBody (if skipped then c' else insert_leading_header name value c') c)
      (bytes_eq key Http.content_length)
      (if-cases (λ c'. SameBody c' c) skipped {x = noted} refl
        (insert_leading_header-SameBody name value noted))
      (if-cases (λ c'. SameBody c' c) skipped {x = c} refl
        (insert_leading_header-SameBody name value c))

pub generate_leading_headers-SameBody :
    (block : HeaderBlock) (c : Converter) → SameBody (generate_leading_headers block c) c
unfolding generate_leading_headers generate_leading_header
generate_leading_headers-SameBody [] c = refl
generate_leading_headers-SameBody ((key, value) ∷ block) c =
    generate_leading_headers-SameBody block (generate_leading_header key value c)
    ∙ if-cases (λ c'. SameBody c' c) (is_spdy_header c.spdy_version key) {x = c} refl
        (if-cases (λ c'. SameBody c' c)
          (bytes_eq key Http.connection || bytes_eq key Http.keep_alive) {x = c} refl
          (generate_http_header-SameBody key value c))

end_of_leading_headers-SameBody : (c : Converter) → SameBody (end_of_leading_headers c) c
unfolding end_of_leading_headers body
end_of_leading_headers-SameBody c =
    let encoding = leading_header Http.accept_encoding Http.gzip_deflate ∷ [] in
    if-cases (λ c'. SameBody (visit (leading_headers_complete ∷ []) c') c) c.seen_accept_encoding
      (body-visit (leading_headers_complete ∷ []) c refl)
      (body-visit (leading_headers_complete ∷ []) (visit encoding c) refl
        ∙ body-visit encoding c refl)

pub start_body-SameBody : (c : Converter) → SameBody (start_body c) c
unfolding start_body body
start_body-SameBody c =
    let started = record c { state = received_data } in
    let encoding = leading_header Http.transfer_encoding Http.chunked ∷ [] in
    if-cases (λ c'. SameBody (end_of_leading_headers c') c) c.use_chunking
      (end_of_leading_headers-SameBody (visit encoding started) ∙ body-visit encoding started refl)
      (end_of_leading_headers-SameBody started)

append_trailing-SameBody :
    (block : HeaderBlock) (c : Converter) → SameBody (append_trailing_headers block c) c
unfolding append_trailing_headers body
append_trailing-SameBody [] c = refl
append_trailing-SameBody (header ∷ block) c =
    let calls = trailing_calls (header ∷ block) in
    body-visit (trailing_headers_complete ∷ []) (visit calls c) refl
    ∙ body-visit calls c (body-trailing_calls (header ∷ block))

finish_body-SameBody : (s : ConverterState) (c : Converter) → SameBody (finish_body s c) c
unfolding finish_body body
finish_body-SameBody no_frames_yet c = end_of_leading_headers-SameBody c
finish_body-SameBody received_syn_stream c = end_of_leading_headers-SameBody c
finish_body-SameBody received_flag_fin c = end_of_leading_headers-SameBody c
finish_body-SameBody received_data c =
    let last = data_chunks_complete ∷ [] in
    if-cases (λ c'. SameBody c' c) c.use_chunking {y = c}
      (append_trailing-SameBody c.trailing_headers (visit last c) ∙ body-visit last c refl) refl

pub finish_if-SameBody : (fin : Bool) (c : Converter) → SameBody (finish_if fin c) c
unfolding finish_if finish_request body
finish_if-SameBody true c =
    body-visit (complete ∷ []) (finish_body c.state c) refl ∙ finish_body-SameBody c.state c
finish_if-SameBody false c = refl
