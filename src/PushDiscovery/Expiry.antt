-- ===== src/PushDiscovery/Expiry.antt =====
-- Sessions of server_push_discovery_session.cc that come and go.
use mod_spdy.Common.{
  ℕ, suc, ltb, ℤ, ◌≤ℤ◌, -ℤ_parts, ==_iff, ◌==◌, ◌≡◌, refl, Bool, true, false, ◌&&◌, List, [], ◌∷◌,
  Option, none, some, if◌then◌else◌, arith, Bool-cases, inl, inr,
}
use mod_spdy.PushDiscovery.{
  DiscoverySession, time_from_last_access, find, is_expired, unless_expired, clean_expired, insert,
  update_last_access_time,
}

-- The IDs in the cache are below the next one, and none is there twice.
unfoldable pub all_below : ℕ → List (ℕ × DiscoverySession) → Bool
all_below n [] = true
all_below n ((k, s) ∷ cache) = ltb k n && all_below n cache

abbrev pub is_absent : Option DiscoverySession → Bool
is_absent none = true
is_absent (some s) = false

unfoldable pub all_distinct : List (ℕ × DiscoverySession) → Bool
unfolding find
all_distinct [] = true
all_distinct ((k, s) ∷ cache) = is_absent (find k cache) && all_distinct cache

-- What has expired stays expired.
is_expired-later :
    (early late : ℤ) (s : DiscoverySession)
    → early ≤ℤ late
    → is_expired early s ≡ true
    → is_expired late s ≡ true
unfolding is_expired time_from_last_access
is_expired-later early late s l h =
    ground (arith, -ℤ_parts late s.last_access, -ℤ_parts early s.last_access)

pub unless_expired-again :
    (early late : ℤ) (o : Option DiscoverySession)
    → early ≤ℤ late
    → unless_expired late (unless_expired early o) ≡ unless_expired late o
unfolding unless_expired
unless_expired-again early late none l = refl
unless_expired-again early late (some s) l = elim (Bool-cases (is_expired early s)) [
  | inl old ↦ let older = is_expired-later early late s l old in simp (old, older) refl
  | inr fresh ↦ simp fresh refl
]

find-clean_none :
    (id : ℕ) (t : ℤ) (cache : List (ℕ × DiscoverySession))
    → find id cache ≡ none
    → find id (clean_expired t cache) ≡ none
unfolding find clean_expired
find-clean_none id t [] h = refl
find-clean_none id t ((k, s) ∷ cache) h = ground (arith, h, find-clean_none id t cache)

pub find-clean_expired :
    (id : ℕ) (t : ℤ) (cache : List (ℕ × DiscoverySession))
    → all_distinct cache ≡ true
    → find id (clean_expired t cache) ≡ unless_expired t (find id cache)
unfolding find clean_expired unless_expired all_distinct
find-clean_expired id t [] d = refl
find-clean_expired id t ((k, s) ∷ cache) d =
    ground (arith, d, find-clean_none id t cache, find-clean_expired id t cache, ==_iff k id)

abbrev pub or_new : Bool → DiscoverySession → Option DiscoverySession → Option DiscoverySession
or_new same new none = if same then some new else none
or_new same new (some s) = some s

pub find-insert :
    (id n : ℕ) (new : DiscoverySession) (cache : List (ℕ × DiscoverySession))
    → find id (insert n new cache) ≡ or_new (n == id) new (find id cache)
unfolding find insert
find-insert id n new [] = refl
find-insert id n new ((k, s) ∷ cache) = ground (arith, find-insert id n new cache)

pub find-all_below :
    (n : ℕ) (cache : List (ℕ × DiscoverySession)) → all_below n cache ≡ true → find n cache ≡ none
unfolding find all_below
find-all_below n [] h = refl
find-all_below n ((k, s) ∷ cache) h = ground (arith, h, find-all_below n cache)

pub all_below-clean :
    (n : ℕ) (t : ℤ) (cache : List (ℕ × DiscoverySession))
    → all_below n cache ≡ true
    → all_below n (clean_expired t cache) ≡ true
unfolding all_below clean_expired
all_below-clean n t [] h = refl
all_below-clean n t ((k, s) ∷ cache) h = ground (arith, h, all_below-clean n t cache)

pub all_below-insert :
    (n : ℕ) (new : DiscoverySession) (cache : List (ℕ × DiscoverySession))
    → all_below n cache ≡ true
    → all_below (suc n) (insert n new cache) ≡ true
unfolding all_below insert
all_below-insert n new [] h = ground arith
all_below-insert n new ((k, s) ∷ cache) h = ground (arith, h, all_below-insert n new cache)

is_absent-none : (o : Option DiscoverySession) → is_absent o ≡ true → o ≡ none
is_absent-none none h = refl
is_absent-none (some s) h = cc

pub all_distinct-clean :
    (t : ℤ) (cache : List (ℕ × DiscoverySession))
    → all_distinct cache ≡ true
    → all_distinct (clean_expired t cache) ≡ true
unfolding all_distinct clean_expired
all_distinct-clean t [] h = refl
all_distinct-clean t ((k, s) ∷ cache) h =
    ground (
      arith,
      h,
      all_distinct-clean t cache,
      is_absent-none (find k cache),
      find-clean_none k t cache,
    )

pub all_distinct-insert :
    (n : ℕ) (new : DiscoverySession) (cache : List (ℕ × DiscoverySession))
    → all_distinct cache ≡ true
    → all_distinct (insert n new cache) ≡ true
unfolding all_distinct insert find
all_distinct-insert n new [] h = refl
all_distinct-insert n new ((k, s) ∷ cache) h = ground (
  arith,
  h,
  all_distinct-insert n new cache,
  is_absent-none (find k cache),
  find-insert k n new cache,
  ==_iff n k,
  ==_iff k n,
)

pub update-keys :
    (id n : ℕ) (now : ℤ) (cache : List (ℕ × DiscoverySession))
    → (all_below n (update_last_access_time id now cache) ≡ all_below n cache)
      × (is_absent (find n (update_last_access_time id now cache)) ≡ is_absent (find n cache))
unfolding all_below update_last_access_time find
update-keys id n now [] = (refl, refl)
update-keys id n now ((k, s) ∷ cache) = ground (arith, update-keys id n now cache)

pub all_distinct-update :
    (id : ℕ) (now : ℤ) (cache : List (ℕ × DiscoverySession))
    → all_distinct (update_last_access_time id now cache) ≡ all_distinct cache
unfolding all_distinct update_last_access_time
all_distinct-update id now [] = refl
all_distinct-update id now ((k, s) ∷ cache) =
    ground (arith, update-keys id k now cache, all_distinct-update id now cache)
