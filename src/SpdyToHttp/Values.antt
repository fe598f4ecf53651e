-- ===== src/SpdyToHttp/Values.antt =====
-- The values of one SPDY header: InsertHeader of src/mod_spdy/common/spdy_to_http_converter.cc, which
-- splits a value on NUL bytes.
use mod_spdy.Common.{ℕ, zero, suc, ◌==◌, List, [], ◌∷◌, length, if◌then◌else◌}
use mod_spdy.Frame.{Bytes}

-- find_first_not_of('\0', start): the text from there on.
unfoldable pub skip_nuls : Bytes → Bytes
skip_nuls [] = []
skip_nuls (b ∷ bs) = if b == 0 then skip_nuls bs else b ∷ bs

-- find('\0', start): the text before it, and the text from there on, which is empty at npos.
unfoldable pub before_nul : Bytes → Bytes
before_nul [] = []
before_nul (b ∷ bs) = if b == 0 then [] else b ∷ before_nul bs

unfoldable pub from_nul : Bytes → Bytes
from_nul [] = []
from_nul (b ∷ bs) = if b == 0 then b ∷ bs else from_nul bs

-- The loop of InsertHeader, on the text from `start` on.
unfoldable pub split_values : (fuel : ℕ) → Bytes → List Bytes
unfolding skip_nuls before_nul from_nul
split_values zero value = []
split_values (suc fuel) value = elim (skip_nuls value) [
  | [] ↦ []
  | b ∷ bs ↦ before_nul (b ∷ bs) ∷ split_values fuel (from_nul (b ∷ bs))
]

-- The values that InsertHeader passes on; each turn of the loop takes a byte.
unfoldable pub values : Bytes → List Bytes
unfolding split_values
values value = split_values (length value) value
