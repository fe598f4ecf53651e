-- ===== src/PushFilter/Legal.antt =====
-- The pushes that server_push_filter.cc asks for are such as the session accepts.
use mod_spdy.Common.{
  leb, ◌≡◌, refl, ap, ◌∙◌, Bool, true, false, ◌&&◌, List, [], ◌∷◌, Option, none, some,
  if◌then◌else◌, if-cases, arith,
}
use mod_spdy.Frame.{Bytes, HeaderBlock}
use mod_spdy.Protocol.{SpdyVersion, lowest_spdy_priority_for_version}
use mod_spdy.Protocol.Text.{bytes_eq}
use mod_spdy.Protocol.Spdy3
use mod_spdy.Protocol.Headers.{find, assign}
use mod_spdy.Protocol.Headers.Laws.{find-assign, bytes_eq_refl}
use mod_spdy.Session.Push.{initial_response_headers}
use mod_spdy.PushFilter.{Library, Request, Uri, Try, push_headers, referer}

-- A priority of the version, and the headers that StartServerPush looks for.
abbrev pub has_initial : Option HeaderBlock → Bool
has_initial none = false
has_initial (some block) = true

abbrev pub is_legal : SpdyVersion → Try → Bool
is_legal version t =
    leb t.priority (lowest_spdy_priority_for_version version)
    && has_initial (initial_response_headers t.request_headers)

unfoldable pub all_legal : SpdyVersion → List Try → Bool
all_legal version [] = true
all_legal version (t ∷ tries) = is_legal version t && all_legal version tries

-- Calls that are all legal, if the loop has come to its end.
abbrev pub is_legal_result : SpdyVersion → Option (List Try) → Bool
is_legal_result version none = false
is_legal_result version (some tries) = all_legal version tries

abbrev is_found : Option Bytes → Bool
is_found none = false
is_found (some value) = true

has_initial-found :
    (block : HeaderBlock)
    → is_found (find Spdy3.host block) ≡ true
    → is_found (find Spdy3.path block) ≡ true
    → is_found (find Spdy3.scheme block) ≡ true
    → has_initial (initial_response_headers block) ≡ true
unfolding initial_response_headers
has_initial-found block h p s = ground (arith, h, p, s)

found-assign :
    (j key value : Bytes) (block : HeaderBlock)
    → is_found (find j block) ≡ true
    → is_found (find j (assign key value block)) ≡ true
found-assign j key value block h =
    ap is_found (find-assign j key value block)
    ∙ if-cases (λ (o : Option Bytes). is_found o ≡ true) (bytes_eq key j) {x = some value} refl h

found-here :
    (key value : Bytes) (block : HeaderBlock) → is_found (find key (assign key value block)) ≡ true
found-here key value block =
    ap is_found (find-assign key key value block)
    ∙ ap (λ b. is_found (if b then some value else find key block)) (bytes_eq_refl key)

pub push_headers-has_initial :
    (lib : Library) (request : Request) (uri : Uri)
    → has_initial (initial_response_headers (push_headers lib request uri)) ≡ true
unfolding push_headers
push_headers-has_initial lib request uri =
    has_initial-found _
      (found-assign _ referer _ _ (
        found-assign _ Spdy3.path _ _ (
          found-assign _ Spdy3.version _ _ (
            found-assign _ Spdy3.scheme _ _
              (found-assign _ Spdy3.method _ _ (found-here Spdy3.host _ _))))))
      (found-assign _ referer _ _ (found-here Spdy3.path _ _))
      (found-assign _ referer _ _ (
        found-assign _ Spdy3.path _ _
          (found-assign _ Spdy3.version _ _ (found-here Spdy3.scheme _ _))))
