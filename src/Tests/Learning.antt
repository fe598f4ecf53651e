-- ===== src/Tests/Learning.antt =====
-- Runs of server_push_discovery_session.cc, server_push_discovery_learner.cc, spdy_server_config.cc and
-- server_push_filter.cc.
use mathlib.Core.List.{Perm}
use mathlib.Core.List.Perm
use mod_spdy.Common.{
  ◌==◌, pos, ◌≡◌, true, false, List, [], ◌∷◌, map, none, some, if◌then◌else◌, arith,
}
use mod_spdy.Protocol.Text.{codes}
use mod_spdy.PushDiscovery.{create_session, find, get_existing_session, unless_expired}
use mod_spdy.PushDiscovery.Sessions.{Call, creates, accesses, call_all, create_session-Creates}
use mod_spdy.PushDiscovery.Learner.{
  Library, UrlTable, url_data, get_pushes, add_first_hit, add_adjacent_hit,
}
use mod_spdy.PushDiscovery.Learner.Pushes.{
  keep, is_frequent, data_of, all_in_range, push_url, url_of, get_pushes-Proposes,
}
use mod_spdy.ServerConfig.Merging.{
  Directives, merge_chain, configure, first_of, merge_chain-first_of,
}
use mod_spdy.Common.{ℕ, length, refl, ◌>>=◌}
use mod_spdy.Frame.{Bytes}
use mod_spdy.Protocol.{lowest_spdy_priority_for_version, version_3}
use mod_spdy.Session.Push.{push_started}
use mod_spdy.PushFilter
use mod_spdy.PushFilter.{Try}
use mod_spdy.PushFilter.Loop.{write}
use mod_spdy.PushFilter.Accepted.{Ends}
use mod_spdy.PushFilter.Pushes.{write-Ends}

abbrev calls : List Call
calls = accesses 0 (pos 1500000) ∷ creates (pos 0) (codes "/") false ∷ []

create_session-Creates_example :
    (find
        (create_session (pos 2000000) (codes "/b") true (call_all calls)).0
        (call_all calls).session_cache
      ≡ none)
    × (get_existing_session 0
          (pos 3000000)
          (create_session (pos 2000000) (codes "/b") true (call_all calls)).1
        ≡ (if (create_session (pos 2000000) (codes "/b") true (call_all calls)).0 == 0
            then unless_expired (pos 3000000) (
                some (record {
                  session_id = (create_session (pos 2000000) (codes "/b") true (call_all calls)).0;
                  initial_request_time = pos 2000000;
                  master_url = codes "/b";
                  took_push = true;
                  last_access = pos 2000000;
                }))
            else get_existing_session 0 (pos 3000000) (call_all calls)))
create_session-Creates_example =
    create_session-Creates calls (pos 2000000) (pos 3000000) (codes "/b") true 0 (omega arith)

abbrev lib : Library
lib = record { ends_with = λ url ending. false; average = λ n t old. t; sort = λ ds. ds }

abbrev table : UrlTable
table = add_adjacent_hit lib (codes "/") (codes "/a.png") (pos 40) (add_first_hit (codes "/") [])

get_pushes-Proposes_example :
    (all_in_range (get_pushes lib (codes "/") table) ≡ true)
    × Perm (map push_url (get_pushes lib (codes "/") table)) (
        map url_of (
          keep
            (is_frequent (url_data (codes "/") table).first_hit_count)
            (map data_of (url_data (codes "/") table).adjacents)))
get_pushes-Proposes_example = get_pushes-Proposes lib (codes "/") table (λ ds. Perm.refl ds)

abbrev nothing : Directives
nothing = record {
  spdy_enabled = none;
  max_streams_per_connection = none;
  min_threads_per_process = none;
  max_threads_per_process = none;
  max_server_push_depth = none;
  send_version_header = none;
  server_push_discovery_enabled = none;
  server_push_discovery_send_debug_headers = none;
  use_spdy_version_without_ssl = none;
  vlog_level = none;
}

-- A virtual host turns SPDY on; the server turns it off and allows fewer streams.
abbrev directives : List Directives
directives =
    record nothing { spdy_enabled = some true }
    ∷ record nothing { spdy_enabled = some false; max_streams_per_connection = some (pos 10) }
    ∷ []

merge_chain-first_of_example : merge_chain directives ≡ configure (first_of directives)
merge_chain-first_of_example = merge_chain-first_of directives

-- APR's and Chromium's functions, with one URL, one digit and one entry.
abbrev push_lib : PushFilter.Library
push_lib = record {
  string_to_uint = λ text. if length text == 0 then none else some 9;
  uri_parse = λ url.
      some
        (record { scheme = none; hostinfo = none; path = some url; query = none; fragment = none });
  table_entries = λ keys entries. entries;
  table_get = λ key entries. none;
}

abbrev push_request : PushFilter.Request
push_request = record {
  headers_in = (codes "accept", codes "*/*") ∷ [];
  hostname = some (codes "a.b");
  protocol = codes "HTTP/1.1";
  unparsed_uri = codes "/";
}

abbrev quoted : List Bytes
quoted = (b'"' ∷ b'/' ∷ b'a' ∷ b'"' ∷ b':' ∷ b'9' ∷ b',' ∷ b' ' ∷ b'"' ∷ b'/' ∷ b'"' ∷ []) ∷ []

abbrev try_priority : Try → ℕ
try_priority t = t.priority

two_pushes :
    (write push_lib version_3 push_request (λ tries. push_started) 0 1 quoted [] >>= λ tries.
    some (map try_priority tries))
    ≡ some (7 ∷ 7 ∷ [])
unfolding write lowest_spdy_priority_for_version
two_pushes = refl

write-Ends_example :
    Ends version_3 (write push_lib version_3 push_request (λ tries. push_started) 0 1 quoted [])
write-Ends_example =
    write-Ends push_lib version_3 push_request (λ tries. push_started) 0 1 quoted []
