-- ===== src/StringBuilder/Grammar.antt =====
-- The order of calls that the DCHECKs of http_string_builder.cc ask for: the builder's states alone,
-- without the text.
use native.Mathlib.Omega.{arith}
use mod_spdy.Protocol.Headers.{find, assign, insert_new}
use mod_spdy.Common.{
  Option-cases, inl, inr, ℕ, ◌≡◌, refl, ap, ◌∙◌, Bool, true, false, ◌&&◌, List, [], ◌∷◌, ◌++◌, map,
}
use mod_spdy.Frame.{Bytes, HeaderBlock}
use mod_spdy.SpdyToHttp.{Visit, leading_header, trailing_header, trailing_calls}
use mod_spdy.SpdyToHttp.Values.{values}
use mod_spdy.StringBuilder.{
  BuilderState, in_leading_headers, in_data_chunks_complete, in_trailing_headers, Builder, allows,
  next_state, build, build_all,
}

-- A state of the builder, and whether the DCHECKs held.
abbrev pub Stage : Type 0
Stage = BuilderState × Bool

unfoldable pub follow : List Visit → Stage → Stage
unfolding allows next_state
follow [] g = g
follow (call ∷ calls) (s, k) = follow calls (next_state call s, k && allows call s)

pub follow-append : (xs ys : List Visit) (g : Stage) → follow (xs ++ ys) g ≡ follow ys (follow xs g)
unfolding follow
follow-append [] ys g = refl
follow-append (x ∷ xs) ys (s, k) = follow-append xs ys (next_state x s, k && allows x s)

pub build_all-follow :
    (hex : ℕ → Bytes) (calls : List Visit) (b : Builder)
    → ((build_all hex calls b).state, (build_all hex calls b).checks_hold)
      ≡ follow calls (b.state, b.checks_hold)
unfolding build_all follow build
build_all-follow hex [] b = refl
build_all-follow hex (call ∷ calls) b = build_all-follow hex calls (build hex call b)

pub follow-leading :
    (key : Bytes) (vs : List Bytes)
    → follow (map (leading_header key) vs) (in_leading_headers, true) ≡ (in_leading_headers, true)
unfolding follow allows next_state
follow-leading key [] = refl
follow-leading key (v ∷ vs) = follow-leading key vs

-- After a trailing header.
follow-trailing :
    (k : Bool) (key : Bytes) (vs : List Bytes)
    → follow (map (trailing_header key) vs) (in_trailing_headers, k) ≡ (in_trailing_headers, k)
unfolding follow allows next_state
follow-trailing k key [] = refl
follow-trailing true key (v ∷ vs) = follow-trailing true key vs
follow-trailing false key (v ∷ vs) = follow-trailing false key vs

abbrev pub any_value : List Bytes → Bool
any_value [] = false
any_value (v ∷ vs) = true

-- Every header of the block has a byte that is not NUL.
unfoldable pub all_valued : HeaderBlock → Bool
all_valued [] = true
all_valued ((key, value) ∷ block) = any_value (values value) && all_valued block

follow-trailing_calls_rest :
    (k : Bool) (block : HeaderBlock)
    → follow (trailing_calls block) (in_trailing_headers, k) ≡ (in_trailing_headers, k)
unfolding trailing_calls follow
follow-trailing_calls_rest k [] = refl
follow-trailing_calls_rest k ((key, value) ∷ block) =
    follow-append (map (trailing_header key) (values value)) (trailing_calls block)
      (in_trailing_headers, k)
    ∙ ap (follow (trailing_calls block)) (follow-trailing k key (values value))
    ∙ follow-trailing_calls_rest k block

trailing_values :
    (k : Bool) (key : Bytes) (vs : List Bytes)
    → any_value vs ≡ true
    → follow (map (trailing_header key) vs) (in_data_chunks_complete, k) ≡ (in_trailing_headers, k)
unfolding follow allows next_state
trailing_values k key [] h = cc
trailing_values true key (v ∷ vs) h = follow-trailing true key vs
trailing_values false key (v ∷ vs) h = follow-trailing false key vs

pub and_true : (a b : Bool) → (a && b) ≡ true → (a ≡ true) × (b ≡ true)
and_true true true h = (refl, refl)
and_true true false h = (refl, h)
and_true false b h = absurd cc

pub follow-trailing_calls :
    (k : Bool) (header : Bytes × Bytes) (block : HeaderBlock)
    → all_valued (header ∷ block) ≡ true
    → follow (trailing_calls (header ∷ block)) (in_data_chunks_complete, k)
      ≡ (in_trailing_headers, k)
unfolding trailing_calls follow all_valued
follow-trailing_calls k (key, value) block h =
    follow-append (map (trailing_header key) (values value)) (trailing_calls block)
      (in_data_chunks_complete, k)
    ∙ ap (follow (trailing_calls block)) (
        trailing_values k key (values value)
          (and_true (any_value (values value)) (all_valued block) h).0)
    ∙ follow-trailing_calls_rest k block

all_valued-assign :
    (key value : Bytes) (block : HeaderBlock)
    → any_value (values value) ≡ true
    → all_valued block ≡ true
    → all_valued (assign key value block) ≡ true
unfolding all_valued assign
all_valued-assign key value [] v h = ground arith
all_valued-assign key value ((k, old) ∷ block) v h =
    ground (arith, all_valued-assign key value block v)

-- `insert` adds none but headers of the blocks.
pub all_valued-insert_new :
    (news block : HeaderBlock)
    → all_valued news ≡ true
    → all_valued block ≡ true
    → all_valued (insert_new news block) ≡ true
unfolding all_valued insert_new
all_valued-insert_new [] block n h = h
all_valued-insert_new ((k, v) ∷ news) block n h =
    let (one, rest) = and_true (any_value (values v)) (all_valued news) n in
    elim (Option-cases (find k block)) [
      | inl missing ↦
          rw missing
            (all_valued-insert_new news (assign k v block) rest (all_valued-assign k v block one h))
      | inr (old, found) ↦ rw found (all_valued-insert_new news block rest h)
    ]
