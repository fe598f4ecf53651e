-- ===== src/Tests/Converters.antt =====
-- Runs of http_to_spdy_converter.cc.
use mod_spdy.Common.{◌≡◌, refl, true, false, List, [], ◌∷◌, ◌++◌}
use mod_spdy.Protocol.{version_3}
use mod_spdy.Protocol.Text.{codes, bytes_eq, bytes_ltb, lower}
use mod_spdy.Protocol.Headers.{is_invalid_spdy_response_header, merge_in_header, assign, find}
use mod_spdy.Protocol.Spdy3
use mod_spdy.HttpToSpdy.{
  Received, receives_syn_reply, receives_data, Call, status_line, leading_header,
  leading_headers_complete, body_data, flush, call_all, create, on_data,
}
use mod_spdy.HttpToSpdy.Delivery.{all_data, IsFinished, on_data-IsFinished}
use mod_spdy.HttpToSpdy.Names.{IsAllowed, AllAllowed, call_all-AllAllowed}

-- The start of a response, the newest call first.
abbrev calls : List Call
calls =
    flush
    ∷ body_data (104 ∷ 105 ∷ []) false
    ∷ leading_headers_complete false
    ∷ leading_header (codes "Connection") (codes "close")
    ∷ leading_header (codes "X-A") (codes "1")
    ∷ status_line (codes "HTTP/1.1") (codes "200")
    ∷ []

abbrev two_frames : List Received
two_frames =
    receives_data (33 ∷ []) true
    ∷ receives_data (104 ∷ 105 ∷ []) false
    ∷ receives_syn_reply
        ((Spdy3.status, codes "200")
          ∷ (Spdy3.version, codes "HTTP/1.1")
          ∷ (codes "x-a", codes "1")
          ∷ [])
        false
    ∷ []

converts : (on_data (33 ∷ []) true (call_all calls (create version_3))).received ≡ two_frames
unfolding on_data call_all create is_invalid_spdy_response_header bytes_eq lower merge_in_header
    assign bytes_ltb find
converts = refl

on_data-IsFinished_example :
    IsFinished
      (on_data (33 ∷ []) true (call_all calls (create version_3)))
      (all_data calls ++ 33 ∷ [])
on_data-IsFinished_example =
    on_data-IsFinished version_3 calls (33 ∷ []) (refl, (refl, (refl, (refl, (refl, (refl, tt))))))

call_all-AllAllowed_example :
    IsAllowed (call_all calls (create version_3)).headers
    × AllAllowed (call_all calls (create version_3)).received
call_all-AllAllowed_example = call_all-AllAllowed version_3 calls
