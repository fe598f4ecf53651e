-- ===== src/Protocol.antt =====
-- SPDY versions, header names and header tables: src/mod_spdy/common/protocol_util.cc and .h.
-- A std::string is its bytes; `StringToLowerASCII` and `LowerCaseEqualsASCII` of Chromium's base lower
-- the ASCII letters.
pub mod Text
pub mod Http
pub mod Spdy2
pub mod Spdy3
pub mod Headers
use Prim.Native.Char.{code}
use Prim.Native.String.{String}
use mod_spdy.Common.{
  ℕ, ℤ, pos, ◌-ℤ◌, ◌+◌, ◌^◌, ◌≤◌, ◌<◌, ltb, leb, ◌==◌, Bool, true, false, ◌&&◌, ◌||◌, List, [], ◌∷◌,
  ◌++◌, map, Option, none, some, if◌then◌else◌,
}
use mod_spdy.Frame.{Bytes, HeaderBlock}

pub data SpdyVersion : Type 0 where
  version_none version_2 version_3 version_3_1 : SpdyVersion

-- The value of the enum, by which versions are compared.
abbrev pub rank : SpdyVersion → ℕ
rank version_none = 0
rank version_2 = 1
rank version_3 = 2
rank version_3_1 = 3

-- spdy_version >= SPDY_VERSION_3, and >= SPDY_VERSION_3_1
abbrev pub has_stream_windows : SpdyVersion → Bool
has_stream_windows v = leb (rank version_3) (rank v)

abbrev pub has_shared_window : SpdyVersion → Bool
has_shared_window v = leb (rank version_3_1) (rank v)

unfoldable pub lowest_spdy_priority_for_version : SpdyVersion → ℕ
lowest_spdy_priority_for_version v = if ltb (rank v) (rank version_3) then 3 else 7

-- Sizes of flow control windows that Chromium's net defines: kSpdyStreamInitialWindowSize and
-- kSpdyMaximumWindowSize.
pub record WindowSizes : Type 0 where
  pub initial : ℕ
  pub maximum : ℕ

-- What the code relies on: the initial size is positive and allowed, the maximum fits an int32.
pub record IsSane (sizes : WindowSizes) : Type 0 where
  pub positive : 0 < sizes.initial
  pub allowed : sizes.initial ≤ sizes.maximum
  pub fits : sizes.maximum < 2 ^ 31

-- An uint32 that is passed on as an int32.
unfoldable pub as_int32 : ℕ → ℤ
as_int32 n = if ltb n (2 ^ 31) then pos n else pos n -ℤ pos (2 ^ 32)
