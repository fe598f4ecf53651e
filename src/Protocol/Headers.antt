-- ===== src/Protocol/Headers.antt =====
-- Header tables: IsInvalidSpdyResponseHeader and MergeInHeader of
-- src/mod_spdy/common/protocol_util.cc, over a std::map in the order of its keys.
pub mod Laws
use mod_spdy.Common.{
  ℕ, Bool, true, false, ◌||◌, List, [], ◌∷◌, ◌++◌, Option, none, some, if◌then◌else◌,
}
use mod_spdy.Frame.{Bytes, HeaderBlock}
use mod_spdy.Protocol.Text.{lower, bytes_eq, bytes_ltb}
use mod_spdy.Protocol.Http

-- LowerCaseEqualsASCII
unfoldable pub lower_equals : Bytes → Bytes → Bool
lower_equals key name = bytes_eq (lower key) name

unfoldable pub is_invalid_spdy_response_header : Bytes → Bool
unfolding lower_equals
is_invalid_spdy_response_header key =
    lower_equals key Http.connection
    || lower_equals key Http.keep_alive
    || lower_equals key Http.proxy_connection
    || lower_equals key Http.transfer_encoding

-- `find`
unfoldable pub find : Bytes → HeaderBlock → Option Bytes
find key [] = none
find key ((k, v) ∷ block) = if bytes_eq k key then some v else find key block

-- `headers[key] = value`
unfoldable pub assign : Bytes → Bytes → HeaderBlock → HeaderBlock
assign key value [] = (key, value) ∷ []
assign key value ((k, v) ∷ block) =
    if bytes_eq k key
    then (k, value) ∷ block
    else if bytes_ltb key k
    then (key, value) ∷ (k, v) ∷ block
    else (k, v) ∷ assign key value block

-- `insert(begin, end)`, which keeps the value of a key that is there.
unfoldable pub insert_new : HeaderBlock → HeaderBlock → HeaderBlock
insert_new [] block = block
insert_new ((k, v) ∷ rest) block =
    insert_new rest (elim (find k block) [ none ↦ assign k v block | some old ↦ block ])

abbrev pub merged : Option Bytes → Bytes → Bytes
merged none value = value
merged (some old) value = old ++ 0 ∷ value

unfoldable pub merge_in_header : Bytes → Bytes → HeaderBlock → HeaderBlock
merge_in_header key value block = assign (lower key) (merged (find (lower key) block) value) block
