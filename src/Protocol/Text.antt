-- ===== src/Protocol/Text.antt =====
-- Byte strings, as protocol_util.cc and its callers use them. `StringToLowerASCII` of Chromium's base
-- lowers the ASCII letters; operator< and operator== of std::string compare bytes.
use Prim.Native.Char.{code}
use Prim.Native.String.{String}
use mod_spdy.Common.{
  ℕ, ◌+◌, ltb, leb, ◌==◌, Bool, true, false, ◌&&◌, ◌||◌, [], ◌∷◌, map, if◌then◌else◌,
}
use mod_spdy.Frame.{Bytes}

-- The bytes of a text in ASCII.
abbrev pub codes : String → Bytes
codes String.[] = []
codes (String.◌∷◌ c s) = code c ∷ codes s

-- operator< of std::string, on bytes.
unfoldable pub bytes_ltb : Bytes → Bytes → Bool
bytes_ltb [] [] = false
bytes_ltb [] (y ∷ ys) = true
bytes_ltb (x ∷ xs) [] = false
bytes_ltb (x ∷ xs) (y ∷ ys) = ltb x y || (x == y && bytes_ltb xs ys)

unfoldable pub bytes_eq : Bytes → Bytes → Bool
bytes_eq [] [] = true
bytes_eq [] (y ∷ ys) = false
bytes_eq (x ∷ xs) [] = false
bytes_eq (x ∷ xs) (y ∷ ys) = x == y && bytes_eq xs ys

abbrev pub to_lower : ℕ → ℕ
to_lower c = if leb b'A' c && leb c b'Z' then c + 32 else c

-- StringToLowerASCII
unfoldable pub lower : Bytes → Bytes
lower = map to_lower
