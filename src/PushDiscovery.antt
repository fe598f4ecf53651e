-- ===== src/PushDiscovery.antt =====
-- The sessions by which the server learns what to push:
-- src/mod_spdy/common/server_push_discovery_session.cc and .h, each method under its lock. Times are
-- microseconds; neither they nor the IDs, which are int64 in the source, wrap.
pub mod Expiry
pub mod Sessions
pub mod Learner
use mod_spdy.Common.{
  ℕ, suc, ℤ, pos, ◌-ℤ◌, ltb_ℤ, ◌==◌, Bool, List, [], ◌∷◌, Option, none, some, if◌then◌else◌,
}
use mod_spdy.Frame.{Bytes}

-- kServerPushSessionTimeout
abbrev pub server_push_session_timeout : ℤ
server_push_session_timeout = pos 2000000

-- ServerPushDiscoverySession
pub record DiscoverySession : Type 0 where
  pub session_id : ℕ
  pub initial_request_time : ℤ
  pub master_url : Bytes
  pub took_push : Bool
  pub last_access : ℤ

unfoldable pub time_from_init : ℤ → DiscoverySession → ℤ
time_from_init request_time s = request_time -ℤ s.initial_request_time

unfoldable pub time_from_last_access : ℤ → DiscoverySession → ℤ
time_from_last_access request_time s = request_time -ℤ s.last_access

-- ServerPushDiscoverySessionPool, the map in the order of its keys.
pub record SessionPool : Type 0 where
  pub next_session_id : ℕ
  pub session_cache : List (ℕ × DiscoverySession)

unfoldable pub create : SessionPool
create = record { next_session_id = 0; session_cache = [] }

unfoldable pub find : ℕ → List (ℕ × DiscoverySession) → Option DiscoverySession
find id [] = none
find id ((k, s) ∷ cache) = if k == id then some s else find id cache

unfoldable pub is_expired : ℤ → DiscoverySession → Bool
unfolding time_from_last_access
is_expired request_time s = ltb_ℤ server_push_session_timeout (time_from_last_access request_time s)

-- The session that was found, unless it is expired.
unfoldable pub unless_expired : ℤ → Option DiscoverySession → Option DiscoverySession
unfolding is_expired
unless_expired request_time none = none
unless_expired request_time (some s) = if is_expired request_time s then none else some s

unfoldable pub get_existing_session : ℕ → ℤ → SessionPool → Option DiscoverySession
unfolding find unless_expired
get_existing_session id request_time pool = unless_expired request_time (find id pool.session_cache)

unfoldable pub clean_expired : ℤ → List (ℕ × DiscoverySession) → List (ℕ × DiscoverySession)
unfolding is_expired
clean_expired request_time [] = []
clean_expired request_time ((k, s) ∷ cache) =
    if is_expired request_time s
    then clean_expired request_time cache
    else (k, s) ∷ clean_expired request_time cache

-- `insert` of the map: an entry with the key stays as it is.
unfoldable pub insert :
    ℕ → DiscoverySession → List (ℕ × DiscoverySession) → List (ℕ × DiscoverySession)
insert id new [] = (id, new) ∷ []
insert id new ((k, s) ∷ cache) = if k == id then (k, s) ∷ cache else (k, s) ∷ insert id new cache

unfoldable pub create_session : ℤ → Bytes → Bool → SessionPool → ℕ × SessionPool
unfolding clean_expired insert
create_session request_time request_url took_push pool = (
  pool.next_session_id,
  record {
    next_session_id = suc pool.next_session_id;
    session_cache =
        insert pool.next_session_id
          (record {
            session_id = pool.next_session_id;
            initial_request_time = request_time;
            master_url = request_url;
            took_push = took_push;
            last_access = request_time;
          })
          (clean_expired request_time pool.session_cache);
  },
)

-- UpdateLastAccessTime on the object in the pool.
unfoldable pub update_last_access_time :
    ℕ → (now : ℤ) → List (ℕ × DiscoverySession) → List (ℕ × DiscoverySession)
update_last_access_time id now [] = []
update_last_access_time id now ((k, s) ∷ cache) =
    if k == id
    then (k, record s { last_access = now }) ∷ cache
    else (k, s) ∷ update_last_access_time id now cache
