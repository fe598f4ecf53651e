-- ===== src/StringBuilder/Stages.antt =====
-- The builder of http_string_builder.cc as the visitor of spdy_to_http_converter.cc: what each part of
-- a conversion does to the builder's state.
use mod_spdy.Common.{
  Bool-cases, inl, inr, ◌≡◌, refl, ap, ◌∙◌, Bool, true, false, ◌||◌, List, [], ◌∷◌, map,
  if◌then◌else◌,
}
use mod_spdy.Frame.{Bytes, HeaderBlock}
use mod_spdy.Protocol.Text.{bytes_eq}
use mod_spdy.Protocol.Http
use mod_spdy.SpdyToHttp.{
  Visit, leading_header, leading_headers_complete, received_data, Converter, is_spdy_header, visit,
  insert_leading_header, generate_http_header, generate_leading_header, generate_leading_headers,
  http_name, end_of_leading_headers, start_body,
}
use mod_spdy.SpdyToHttp.Values.{values}
use mod_spdy.StringBuilder.{
  in_request_line, in_leading_headers, in_leading_headers_complete, allows, next_state,
}
use mod_spdy.StringBuilder.Grammar.{Stage, follow, follow-append, follow-leading}

-- Where the calls so far leave a new builder.
abbrev pub stage : Converter → Stage
stage c = follow c.visitor (in_request_line, true)

pub stage-visit :
    (calls : List Visit) (c : Converter) → stage (visit calls c) ≡ follow calls (stage c)
stage-visit calls c = follow-append c.visitor calls (in_request_line, true)

-- The leading headers are open, and what else the two converters share.
pub record IsOpen (c old : Converter) : Type 0 where
  pub stage_is : stage c ≡ (in_leading_headers, true)
  pub same_state : c.state ≡ old.state
  pub same_trailing : c.trailing_headers ≡ old.trailing_headers

stage-headers :
    (key value : Bytes) (c : Converter)
    → stage c ≡ (in_leading_headers, true)
    → stage (visit (map (leading_header key) (values value)) c) ≡ (in_leading_headers, true)
stage-headers key value c h =
    let calls = map (leading_header key) (values value) in
    stage-visit calls c ∙ ap (follow calls) h ∙ follow-leading key (values value)

noted_seen :
    (b : Bool) (key value : Bytes) (c : Converter)
    → stage c ≡ (in_leading_headers, true)
    → IsOpen
        (visit
          (map (leading_header key) (values value))
          (if b then record c { seen_accept_encoding = true } else c))
        c
noted_seen true key value c h = record {
  stage_is = stage-headers key value (record c { seen_accept_encoding = true }) h;
  same_state = refl;
  same_trailing = refl;
}
noted_seen false key value c h = record {
  stage_is = stage-headers key value c h;
  same_state = refl;
  same_trailing = refl;
}

insert_leading_header-IsOpen :
    (key value : Bytes) (c : Converter)
    → stage c ≡ (in_leading_headers, true)
    → IsOpen (insert_leading_header key value c) c
unfolding insert_leading_header
insert_leading_header-IsOpen key value c h =
    noted_seen (bytes_eq key Http.accept_encoding) key value c h

inserted_if :
    (skipped : Bool) (key value : Bytes) (c : Converter)
    → stage c ≡ (in_leading_headers, true)
    → IsOpen (if skipped then c else insert_leading_header key value c) c
inserted_if true key value c h = record { stage_is = h; same_state = refl; same_trailing = refl }
inserted_if false key value c h = insert_leading_header-IsOpen key value c h

noted_length :
    (b skipped : Bool) (key value : Bytes) (c : Converter)
    → stage c ≡ (in_leading_headers, true)
    → IsOpen
        (let noted = if b then record c { use_chunking = false } else c in
          if skipped then noted else insert_leading_header key value noted)
        c
noted_length true skipped key value c h =
    let opened = inserted_if skipped key value (record c { use_chunking = false }) h in
    record {
      stage_is = opened.stage_is;
      same_state = opened.same_state;
      same_trailing = opened.same_trailing;
    }
noted_length false skipped key value c h = inserted_if skipped key value c h

generate_http_header-IsOpen :
    (key value : Bytes) (c : Converter)
    → stage c ≡ (in_leading_headers, true)
    → IsOpen (generate_http_header key value c) c
unfolding generate_http_header
generate_http_header-IsOpen key value c h =
    noted_length (bytes_eq key Http.content_length) (bytes_eq key Http.transfer_encoding)
      (http_name c.spdy_version key) value c h

skipped_if :
    (a b : Bool) (key value : Bytes) (c : Converter)
    → stage c ≡ (in_leading_headers, true)
    → IsOpen (if a then c else if b then c else generate_http_header key value c) c
skipped_if true b key value c h = record { stage_is = h; same_state = refl; same_trailing = refl }
skipped_if false true key value c h = record {
  stage_is = h;
  same_state = refl;
  same_trailing = refl;
}
skipped_if false false key value c h = generate_http_header-IsOpen key value c h

generate_leading_header-IsOpen :
    (key value : Bytes) (c : Converter)
    → stage c ≡ (in_leading_headers, true)
    → IsOpen (generate_leading_header key value c) c
unfolding generate_leading_header
generate_leading_header-IsOpen key value c h =
    skipped_if (is_spdy_header c.spdy_version key)
      (bytes_eq key Http.connection || bytes_eq key Http.keep_alive) key value c h

pub generate_leading_headers-IsOpen :
    (block : HeaderBlock) (c : Converter)
    → stage c ≡ (in_leading_headers, true)
    → IsOpen (generate_leading_headers block c) c
unfolding generate_leading_headers
generate_leading_headers-IsOpen [] c h = record {
  stage_is = h;
  same_state = refl;
  same_trailing = refl;
}
generate_leading_headers-IsOpen ((key, value) ∷ block) c h =
    let one = generate_leading_header-IsOpen key value c h in
    let rest =
      generate_leading_headers-IsOpen block (generate_leading_header key value c) one.stage_is in
    record {
      stage_is = rest.stage_is;
      same_state = rest.same_state ∙ one.same_state;
      same_trailing = rest.same_trailing ∙ one.same_trailing;
    }

pub end_of_leading_headers-stage :
    (c : Converter)
    → stage c ≡ (in_leading_headers, true)
    → stage (end_of_leading_headers c) ≡ (in_leading_headers_complete, true)
unfolding end_of_leading_headers follow allows next_state
end_of_leading_headers-stage c h =
    let added = visit (leading_header Http.accept_encoding Http.gzip_deflate ∷ []) c in
    let complete = leading_headers_complete ∷ [] in
    elim (Bool-cases c.seen_accept_encoding) [
      | inl seen ↦ rw seen (stage-visit complete c ∙ ap (follow complete) h)
      | inr unseen ↦ rw unseen (
          stage-visit complete added
          ∙ ap (follow complete) (
              stage-visit (leading_header Http.accept_encoding Http.gzip_deflate ∷ []) c
              ∙ ap (follow (leading_header Http.accept_encoding Http.gzip_deflate ∷ [])) h))
    ]

pub end_of_leading_headers-state :
    (c : Converter)
    → ((end_of_leading_headers c).state ≡ c.state)
      × ((end_of_leading_headers c).trailing_headers ≡ c.trailing_headers)
      × ((end_of_leading_headers c).use_chunking ≡ c.use_chunking)
unfolding end_of_leading_headers
end_of_leading_headers-state c = elim (Bool-cases c.seen_accept_encoding) [
  | inl seen ↦ rw seen (refl, refl, refl)
  | inr unseen ↦ rw unseen (refl, refl, refl)
]

chunking_if :
    (b : Bool) (c : Converter)
    → stage c ≡ (in_leading_headers, true)
    → stage (if b then visit (leading_header Http.transfer_encoding Http.chunked ∷ []) c else c)
      ≡ (in_leading_headers, true)
unfolding follow allows next_state
chunking_if true c h =
    let call = leading_header Http.transfer_encoding Http.chunked ∷ [] in
    stage-visit call c ∙ ap (follow call) h
chunking_if false c h = h

pub start_body-stage :
    (c : Converter)
    → stage c ≡ (in_leading_headers, true)
    → stage (start_body c) ≡ (in_leading_headers_complete, true)
unfolding start_body
start_body-stage c h =
    let started = record c { state = received_data } in
    end_of_leading_headers-stage
      (if c.use_chunking
        then visit (leading_header Http.transfer_encoding Http.chunked ∷ []) started
        else started)
      (chunking_if c.use_chunking started h)
