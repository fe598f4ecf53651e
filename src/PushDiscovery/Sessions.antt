-- ===== src/PushDiscovery/Sessions.antt =====
-- The session pool of server_push_discovery_session.cc over any calls.
use mod_spdy.Common.{
  ℕ, ℤ, ◌≤ℤ◌, ==_iff, ◌==◌, ◌≡◌, refl, ap, sym, ◌∙◌, Bool, true, false, List, [], ◌∷◌, Option, none,
  some, if◌then◌else◌,
}
use mod_spdy.Frame.{Bytes}
use mod_spdy.PushDiscovery.{
  DiscoverySession, SessionPool, create, find, unless_expired, get_existing_session, clean_expired,
  create_session, update_last_access_time,
}
use mod_spdy.PushDiscovery.Expiry.{
  all_below, all_distinct, unless_expired-again, find-clean_expired, or_new, find-insert,
  find-all_below, all_below-clean, all_below-insert, all_distinct-clean, all_distinct-insert,
  update-keys, all_distinct-update,
}

-- The calls that change the pool.
pub data Call : Type 0 where
  creates : (request_time : ℤ) → (request_url : Bytes) → (took_push : Bool) → Call
  accesses : (id : ℕ) → (now : ℤ) → Call

unfoldable pub call : Call → SessionPool → SessionPool
unfolding create_session update_last_access_time
call (creates request_time request_url took_push) pool =
    (create_session request_time request_url took_push pool).1
call (accesses id now) pool = record pool {
  session_cache = update_last_access_time id now pool.session_cache;
}

-- The calls, the newest first.
unfoldable pub call_all : List Call → SessionPool
unfolding call create
call_all [] = create
call_all (c ∷ older) = call c (call_all older)

record IsValid (pool : SessionPool) : Type 0 where
  below : all_below pool.next_session_id pool.session_cache ≡ true
  distinct : all_distinct pool.session_cache ≡ true

call-IsValid : (c : Call) (pool : SessionPool) → IsValid pool → IsValid (call c pool)
unfolding call create_session
call-IsValid (creates t url push) pool v = record {
  below =
      all_below-insert pool.next_session_id _ (clean_expired t pool.session_cache)
        (all_below-clean pool.next_session_id t pool.session_cache v.below);
  distinct =
      all_distinct-insert pool.next_session_id _ (clean_expired t pool.session_cache)
        (all_distinct-clean t pool.session_cache v.distinct);
}
call-IsValid (accesses id now) pool v = record {
  below = (update-keys id pool.next_session_id now pool.session_cache).0 ∙ v.below;
  distinct = all_distinct-update id now pool.session_cache ∙ v.distinct;
}

call_all-IsValid : (calls : List Call) → IsValid (call_all calls)
unfolding call_all create all_below all_distinct
call_all-IsValid [] = record { below = refl; distinct = refl }
call_all-IsValid (c ∷ older) = call-IsValid c (call_all older) (call_all-IsValid older)

or_new-false : (new : DiscoverySession) (o : Option DiscoverySession) → or_new false new o ≡ o
or_new-false new none = refl
or_new-false new (some s) = refl

found_later :
    (same : Bool) (early late : ℤ) (new : DiscoverySession) (o : Option DiscoverySession)
    → early ≤ℤ late
    → (same ≡ true → o ≡ none)
    → unless_expired late (or_new same new (unless_expired early o))
      ≡ (if same then unless_expired late (some new) else unless_expired late o)
unfolding unless_expired
found_later true early late new o l h =
    ap (λ x. unless_expired late (or_new true new (unless_expired early x))) (h refl)
found_later false early late new o l h =
    ap (unless_expired late) (or_new-false new (unless_expired early o))
    ∙ unless_expired-again early late o l

-- After any calls, CreateSession returns an ID that no session in the pool has. From then on, and at
-- times not before the new request's, GetExistingSession finds under this ID the new session until
-- the timeout has passed since the request, and under any other ID what it would have found without
-- the call: the removal of expired sessions is not visible.
pub create_session-Creates :
    (calls : List Call) (request_time later : ℤ) (url : Bytes) (took_push : Bool) (id : ℕ)
    → request_time ≤ℤ later
    → (find
          (create_session request_time url took_push (call_all calls)).0
          (call_all calls).session_cache
        ≡ none)
      × (get_existing_session id later
            (create_session request_time url took_push (call_all calls)).1
          ≡ (if (create_session request_time url took_push (call_all calls)).0 == id
              then unless_expired later (
                  some (record {
                    session_id = (create_session request_time url took_push (call_all calls)).0;
                    initial_request_time = request_time;
                    master_url = url;
                    took_push = took_push;
                    last_access = request_time;
                  }))
              else get_existing_session id later (call_all calls)))
unfolding create_session get_existing_session
create_session-Creates calls request_time later url took_push id l =
    let pool = call_all calls in
    let v = call_all-IsValid calls in
    let absent = find-all_below pool.next_session_id pool.session_cache v.below in
    let n = pool.next_session_id in
    let new : DiscoverySession = record {
      session_id = n;
      initial_request_time = request_time;
      master_url = url;
      took_push = took_push;
      last_access = request_time;
    } in
    (
      absent,
      ap (unless_expired later) (
            find-insert id n new (clean_expired request_time pool.session_cache)
            ∙ ap (or_new (n == id) new)
                (find-clean_expired id request_time pool.session_cache v.distinct))
          ∙ found_later (n == id) request_time later new (find id pool.session_cache) l
              (λ same. ap (λ i. find i pool.session_cache) (sym ((==_iff n id).0 same)) ∙ absent),
    )
