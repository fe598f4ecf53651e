-- ===== src/PushFilter/Accepted.antt =====
-- What StartServerPush of spdy_session.cc answers to the pushes of server_push_filter.cc.
use mod_spdy.Common.{
  ℕ, ◌+◌, leb, ◌≡◌, refl, Bool, true, false, List, [], ◌∷◌, Option, none, some, if-cases, arith,
}
use mod_spdy.Session.StreamMap.{is_stream_active}
use mod_spdy.Frame.{HeaderBlock}
use mod_spdy.Protocol.{SpdyVersion, WindowSizes, lowest_spdy_priority_for_version}
use mod_spdy.Session.State.{Session}
use mod_spdy.Session.Push.{
  PushStatus, invalid_request_headers, max_server_push_stream_id, start_server_push, try_push,
  take_push_id, initial_response_headers,
}
use mod_spdy.PushFilter.{Try}
use mod_spdy.PushFilter.Legal.{is_legal, has_initial, all_legal, is_legal_result}

abbrev pub is_refusal : PushStatus → Bool
is_refusal invalid_request_headers = true
is_refusal _ = false

abbrev Accepts : PushStatus × Session → Type 0
Accepts r = is_refusal r.0 ≡ false

take_push_id-Accepts :
    (sizes : WindowSizes) (associated depth priority : ℕ) (request initial : HeaderBlock)
    (s : Session)
    → Accepts (take_push_id sizes associated depth priority request initial s)
unfolding take_push_id
take_push_id-Accepts sizes associated depth priority request initial s =
    if-cases Accepts (is_stream_active (s.last_server_push_stream_id + 2) s.stream_map) refl refl

try_push-Accepts :
    (sizes : WindowSizes) (associated depth priority : ℕ) (request initial : HeaderBlock)
    (s : Session)
    → Accepts (try_push sizes associated depth priority request initial s)
unfolding try_push
try_push-Accepts sizes associated depth priority request initial s =
    if-cases Accepts s.received_goaway refl (
      if-cases Accepts (is_stream_active associated s.stream_map)
        (if-cases Accepts (leb s.max_concurrent_pushes s.stream_map.num_active_push_streams) refl (
          if-cases Accepts (leb max_server_push_stream_id s.last_server_push_stream_id) refl
            (take_push_id-Accepts sizes associated depth priority request initial s)))
        refl)

-- StartServerPush does not refuse the request headers.
abbrev pub IsAccepted : Try → Type 0
IsAccepted t =
    (sizes : WindowSizes) (associated depth : ℕ) (s : Session)
    → Accepts (start_server_push sizes associated depth t.priority t.request_headers s)

has_initial-Accepts :
    (sizes : WindowSizes) (associated depth priority : ℕ) (request : HeaderBlock) (s : Session)
    (o : Option HeaderBlock)
    → has_initial o ≡ true
    → Accepts (elim o [
      | none ↦ (invalid_request_headers, s)
      | some initial ↦ try_push sizes associated depth priority request initial s
    ])
has_initial-Accepts sizes associated depth priority request s none h = cc
has_initial-Accepts sizes associated depth priority request s (some initial) h =
    try_push-Accepts sizes associated depth priority request initial s

is_legal-IsAccepted : (version : SpdyVersion) (t : Try) → is_legal version t ≡ true → IsAccepted t
unfolding start_server_push
is_legal-IsAccepted version t h sizes associated depth s =
    has_initial-Accepts sizes associated depth t.priority t.request_headers s
      (initial_response_headers t.request_headers) (ground (arith, h))

-- The parsing has come to its end, and each push that it asks for has a priority of the version and is
-- not refused for its request headers.
abbrev pub AllAccepted : SpdyVersion → List Try → Type 0
AllAccepted version [] = Unit
AllAccepted version (t ∷ tries) =
    ((leb t.priority (lowest_spdy_priority_for_version version) ≡ true) × IsAccepted t)
    × AllAccepted version tries

abbrev pub Ends : SpdyVersion → Option (List Try) → Type 0
Ends version none = ⊥
Ends version (some tries) = AllAccepted version tries

all_legal-AllAccepted :
    (version : SpdyVersion) (tries : List Try)
    → all_legal version tries ≡ true
    → AllAccepted version tries
unfolding all_legal
all_legal-AllAccepted version [] h = tt
all_legal-AllAccepted version (t ∷ tries) h = (
  (ground (arith, h), is_legal-IsAccepted version t (ground (arith, h))),
  all_legal-AllAccepted version tries (ground (arith, h)),
)

pub is_legal_result-Ends :
    (version : SpdyVersion) (o : Option (List Try))
    → is_legal_result version o ≡ true
    → Ends version o
is_legal_result-Ends version none h = cc
is_legal_result-Ends version (some tries) h = all_legal-AllAccepted version tries h
