-- ===== src/ResponseParser/Lines.antt =====
-- Searches in byte strings, as http_response_parser.cc makes them with StringPiece.
use mod_spdy.Common.{
  ℕ, leb, ◌==◌, Bool, false, ◌&&◌, ◌||◌, [], ◌∷◌, Option, none, some, if◌then◌else◌, drop,
}
use mod_spdy.Frame.{Bytes}

-- `starts_with("\r\n")`
abbrev pub starts_with_crlf : Bytes → Bool
starts_with_crlf [] = false
starts_with_crlf (c ∷ []) = false
starts_with_crlf (c ∷ d ∷ cs) = (c == 13) && (d == 10)

abbrev pub after_byte : ℕ → Option (Bytes × Bytes) → Option (Bytes × Bytes)
after_byte c none = none
after_byte c (some (line, rest)) = some (c ∷ line, rest)

-- `find("\r\n")`, with `substr(0, linebreak)` and `substr(linebreak + 2)` of where it is.
unfoldable pub break_line : Bytes → Option (Bytes × Bytes)
break_line [] = none
break_line (c ∷ cs) =
    let later = after_byte c (break_line cs) in
    if starts_with_crlf (c ∷ cs) then some ([], drop 1 cs) else later

-- The bytes up to the first one that fails the test, and the rest.
unfoldable pub span : (ℕ → Bool) → Bytes → Bytes × Bytes
span p [] = ([], [])
span p (c ∷ cs) = let (front, rest) = span p cs in if p c then (c ∷ front, rest) else ([], c ∷ cs)

-- The bytes from the first one that fails the test on.
unfoldable pub skip : (ℕ → Bool) → Bytes → Bytes
skip p [] = []
skip p (c ∷ cs) = if p c then skip p cs else c ∷ cs

-- One of "0123456789abcdefABCDEF".
abbrev pub is_hex_digit : ℕ → Bool
is_hex_digit c = (leb 48 c && leb c 57) || ((leb 97 c && leb c 102) || (leb 65 c && leb c 70))
