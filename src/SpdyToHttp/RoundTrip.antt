-- ===== src/SpdyToHttp/RoundTrip.antt =====
-- A header with several values, there and back: MergeInHeader of
-- src/mod_spdy/common/protocol_util.cc joins them by NUL bytes, InsertHeader of
-- src/mod_spdy/common/spdy_to_http_converter.cc splits them again.
use mod_spdy.Common.{
  ◌>>=◌, ℕ, zero, suc, ◌≤◌, ◌==◌, ◌≡◌, refl, sym, ap, ◌∙◌, Bool, true, not, ◌&&◌, List, [], ◌∷◌,
  ◌++◌, none, some, length, length-append, if◌then◌else◌, arith,
}
use mod_spdy.Frame.{Bytes, HeaderBlock, no_bytes}
use mod_spdy.Protocol.Text.{lower}
use mod_spdy.Protocol.Headers.{find, merged, merge_in_header}
use mod_spdy.Protocol.Headers.Laws.{find-merge_in_header, bytes_eq_refl}
use mod_spdy.SpdyToHttp.Body.{append_assoc, append_nil}
use mod_spdy.SpdyToHttp.Values.{skip_nuls, before_nul, from_nul, split_values, values}

unfoldable pub no_nul : Bytes → Bool
no_nul [] = true
no_nul (b ∷ bs) = not (b == 0) && no_nul bs

-- Values that are neither empty nor hold a NUL byte.
unfoldable pub all_plain : List Bytes → Bool
unfolding no_nul
all_plain [] = true
all_plain (v ∷ vs) = (not (no_bytes v) && no_nul v) && all_plain vs

-- MergeInHeader for each value in turn.
unfoldable pub merge_all : (key : Bytes) → List Bytes → HeaderBlock → HeaderBlock
merge_all key [] block = block
merge_all key (v ∷ vs) block = merge_all key vs (merge_in_header key v block)

-- Each value after a NUL byte.
unfoldable joined : List Bytes → Bytes
joined [] = []
joined (v ∷ vs) = 0 ∷ v ++ joined vs

before_nul-joined :
    (v : Bytes) (vs : List Bytes)
    → no_nul v ≡ true
    → (before_nul (v ++ joined vs) ≡ v) × (from_nul (v ++ joined vs) ≡ joined vs)
unfolding no_nul before_nul from_nul joined
before_nul-joined [] [] h = (refl, refl)
before_nul-joined [] (v ∷ vs) h = (refl, refl)
before_nul-joined (b ∷ bs) vs h = ground (arith, before_nul-joined bs vs)

split_values-joined :
    (fuel : ℕ) (vs : List Bytes)
    → all_plain vs ≡ true
    → length vs ≤ fuel
    → split_values fuel (joined vs) ≡ vs
unfolding all_plain split_values skip_nuls joined
split_values-joined zero [] p l = refl
split_values-joined (suc fuel) [] p l = refl
split_values-joined zero (v ∷ vs) p l = absurd (omega arith)
split_values-joined (suc fuel) ([] ∷ vs) p l = cc
split_values-joined (suc fuel) ((b ∷ bs) ∷ vs) p l =
    ground (arith, before_nul-joined (b ∷ bs) vs, split_values-joined fuel vs)

length-joined : (vs : List Bytes) → length vs ≤ length (joined vs)
unfolding joined
length-joined [] = omega arith
length-joined (v ∷ vs) = omega (arith, length-append v (joined vs), length-joined vs)

-- Without the first NUL byte.
values-joined :
    (v : Bytes) (vs : List Bytes) → all_plain (v ∷ vs) ≡ true → values (v ++ joined vs) ≡ v ∷ vs
unfolding all_plain values split_values skip_nuls
values-joined [] vs p = cc
values-joined (b ∷ bs) vs p = ground (
  arith,
  before_nul-joined (b ∷ bs) vs,
  length-append bs (joined vs),
  length-joined vs,
  split_values-joined (length (bs ++ joined vs)) vs,
)

find-merged :
    (key value : Bytes) (block : HeaderBlock)
    → find (lower key) (merge_in_header key value block)
      ≡ some (merged (find (lower key) block) value)
find-merged key value block =
    find-merge_in_header (lower key) key value block
    ∙ ap (λ b. if b then some (merged (find (lower key) block) value) else find (lower key) block)
        (bytes_eq_refl (lower key))

find-merge_all-some :
    (key : Bytes) (vs : List Bytes) (block : HeaderBlock) (old : Bytes)
    → find (lower key) block ≡ some old
    → find (lower key) (merge_all key vs block) ≡ some (old ++ joined vs)
unfolding merge_all joined
find-merge_all-some key [] block old h = h ∙ ap some (sym (append_nil old))
find-merge_all-some key (v ∷ vs) block old h =
    find-merge_all-some key vs (merge_in_header key v block) (old ++ 0 ∷ v)
      (find-merged key v block ∙ ap (λ o. some (merged o v)) h)
    ∙ ap some (append_assoc old (0 ∷ v) (joined vs))

-- If a table has no entry for a header's name in lower case and one or more values, none of them empty
-- or with a NUL byte, are merged into it one after the other, then a lookup of the name finds a
-- text that InsertHeader splits into exactly these values, in their order.
pub values-merge_all :
    (key v : Bytes) (vs : List Bytes) (block : HeaderBlock)
    → find (lower key) block ≡ none
    → all_plain (v ∷ vs) ≡ true
    → (find (lower key) (merge_all key (v ∷ vs) block) >>= λ text. some (values text))
      ≡ some (v ∷ vs)
unfolding merge_all
values-merge_all key v vs block missing p =
    ap (λ o. o >>= λ text. some (values text))
      (find-merge_all-some key vs (merge_in_header key v block) v
        (find-merged key v block ∙ ap (λ o. some (merged o v)) missing))
    ∙ ap some (values-joined v vs p)
