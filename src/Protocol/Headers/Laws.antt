-- ===== src/Protocol/Headers/Laws.antt =====
-- Lookups in the header tables of protocol_util.cc.
use mod_spdy.Common.{◌≡◌, refl, true, [], ◌∷◌, some, arith, if◌then◌else◌}
use mod_spdy.Frame.{Bytes, HeaderBlock}
use mod_spdy.Protocol.Text.{lower, bytes_eq}
use mod_spdy.Protocol.Headers.{find, assign, merged, merge_in_header}

pub bytes_eq→eq : (x y : Bytes) → bytes_eq x y ≡ true → x ≡ y
unfolding bytes_eq
bytes_eq→eq [] [] h = refl
bytes_eq→eq [] (y ∷ ys) h = cc
bytes_eq→eq (x ∷ xs) [] h = cc
bytes_eq→eq (x ∷ xs) (y ∷ ys) h = ground (arith, bytes_eq→eq xs ys)

pub bytes_eq_refl : (x : Bytes) → bytes_eq x x ≡ true
unfolding bytes_eq
bytes_eq_refl [] = refl
bytes_eq_refl (x ∷ xs) = ground (arith, bytes_eq_refl xs)

pub bytes_eq_sym : (x y : Bytes) → bytes_eq x y ≡ bytes_eq y x
unfolding bytes_eq
bytes_eq_sym [] [] = refl
bytes_eq_sym [] (y ∷ ys) = refl
bytes_eq_sym (x ∷ xs) [] = refl
bytes_eq_sym (x ∷ xs) (y ∷ ys) = ground (arith, bytes_eq_sym xs ys)

pub find-assign :
    (j key value : Bytes) (block : HeaderBlock)
    → find j (assign key value block) ≡ (if bytes_eq key j then some value else find j block)
unfolding find assign
find-assign j key value [] = refl
find-assign j key value ((k, v) ∷ block) = ground (
  arith,
  bytes_eq→eq k key,
  bytes_eq→eq key j,
  bytes_eq→eq k j,
  bytes_eq_refl key,
  find-assign j key value block,
)

-- After MergeInHeader a lookup of the header's name in lower case finds the old values followed by
-- a NUL byte and the new value, or the new value alone if there were none; no other entry changes.
pub find-merge_in_header :
    (j key value : Bytes) (block : HeaderBlock)
    → find j (merge_in_header key value block) ≡ (
        if bytes_eq (lower key) j
        then some (merged (find (lower key) block) value)
        else find j block)
unfolding merge_in_header
find-merge_in_header j key value block =
    find-assign j (lower key) (merged (find (lower key) block) value) block
