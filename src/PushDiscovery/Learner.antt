-- ===== src/PushDiscovery/Learner.antt =====
-- What the server has learnt to push: src/mod_spdy/common/server_push_discovery_learner.cc and .h, each
-- method under its lock. The average, which the source computes in doubles, std::sort and the
-- EndsWith of Chromium's base are parameters; the hit counts, which are uint64, do not wrap.
pub mod Pushes
use mod_spdy.Common.{
  ℕ, suc, ◌+◌, ◌*◌, ◌/◌, leb, ltb, length, ℤ, pos, Bool, true, false, ◌||◌, List, [], ◌∷◌, Option,
  none, some, if◌then◌else◌,
}
use mod_spdy.Frame.{Bytes}
use mod_spdy.Protocol.Text.{codes, bytes_eq, bytes_ltb}

pub record AdjacentData : Type 0 where
  pub adjacent_url : Bytes
  pub hit_count : ℕ
  pub average_time_from_init : ℤ

-- A std::map is a list in the order of its keys.
pub record UrlData : Type 0 where
  pub first_hit_count : ℕ
  pub adjacents : List (Bytes × AdjacentData)

pub record Push : Type 0 where
  pub adjacent_url : Bytes
  pub priority : ℕ

pub record Library : Type 0 where
  pub ends_with : (url ending : Bytes) → Bool
  pub average : (hit_count : ℕ) → (time_from_init old : ℤ) → ℤ
  pub sort : List AdjacentData → List AdjacentData

abbrev pub UrlTable : Type 0
UrlTable = List (Bytes × UrlData)

abbrev pub new_url_data : UrlData
new_url_data = record { first_hit_count = 0; adjacents = [] }

-- What operator[] of the map finds, a new entry if there is none.
unfoldable pub url_data : Bytes → UrlTable → UrlData
url_data url [] = new_url_data
url_data url ((k, d) ∷ table) = if bytes_eq k url then d else url_data url table

-- An entry of the map is set.
unfoldable pub set_entry : {A : Type 0} → Bytes → A → List (Bytes × A) → List (Bytes × A)
set_entry key a [] = (key, a) ∷ []
set_entry key a ((k, b) ∷ entries) =
    if bytes_eq k key
    then (k, a) ∷ entries
    else if bytes_ltb key k
    then (key, a) ∷ (k, b) ∷ entries
    else (k, b) ∷ set_entry key a entries

unfoldable pub adjacent : Bytes → List (Bytes × AdjacentData) → AdjacentData
adjacent url [] = record { adjacent_url = url; hit_count = 0; average_time_from_init = pos 0 }
adjacent url ((k, d) ∷ adjacents) = if bytes_eq k url then d else adjacent url adjacents

-- AddFirstHit
unfoldable pub add_first_hit : Bytes → UrlTable → UrlTable
unfolding url_data set_entry
add_first_hit master_url table =
    let old = url_data master_url table in
    set_entry master_url (record old { first_hit_count = suc old.first_hit_count }) table

-- The data of an adjacent URL after one more hit.
unfoldable pub hit : Library → ℤ → AdjacentData → AdjacentData
hit lib time_from_init d = record d {
  hit_count = suc d.hit_count;
  average_time_from_init = lib.average (suc d.hit_count) time_from_init d.average_time_from_init;
}

-- AddAdjacentHit
unfoldable pub add_adjacent_hit :
    Library → (master_url adjacent_url : Bytes) → ℤ → UrlTable → UrlTable
unfolding url_data set_entry adjacent hit
add_adjacent_hit lib master_url adjacent_url time_from_init table =
    let old = url_data master_url table in
    set_entry master_url
      (record old {
        adjacents =
            set_entry adjacent_url (hit lib time_from_init (adjacent adjacent_url old.adjacents))
              old.adjacents;
      })
      table

-- GetPriorityFromExtension, none for -1.
unfoldable pub get_priority_from_extension : Library → Bytes → Option ℕ
get_priority_from_extension lib url =
    if lib.ends_with url (codes ".js")
    then some 1
    else if lib.ends_with url (codes ".css")
    then some 1
    else none

-- The first loop of GetPushes.
unfoldable pub significant_adjacents :
    (threshold : ℕ) → List (Bytes × AdjacentData) → List AdjacentData
significant_adjacents threshold [] = []
significant_adjacents threshold ((k, d) ∷ adjacents) =
    if leb threshold d.hit_count
    then d ∷ significant_adjacents threshold adjacents
    else significant_adjacents threshold adjacents

abbrev pub priority_or : ℕ → Option ℕ → ℕ
priority_or priority none = priority
priority_or priority (some fixed) = fixed

-- The second loop, from the i-th of `size` entries on.
unfoldable pub pushes_from : Library → (size i : ℕ) → List AdjacentData → List Push
unfolding get_priority_from_extension
pushes_from lib size i [] = []
pushes_from lib size i (d ∷ ds) =
    record {
      adjacent_url = d.adjacent_url;
      priority = priority_or (2 + i * 6 / size) (get_priority_from_extension lib d.adjacent_url);
    }
    ∷ pushes_from lib size (suc i) ds

-- GetPushes, without the entry that operator[] may add.
unfoldable pub get_pushes : Library → Bytes → UrlTable → List Push
unfolding pushes_from significant_adjacents url_data
get_pushes lib master_url table =
    let data' = url_data master_url table in
    let sorted = lib.sort (significant_adjacents (data'.first_hit_count / 2) data'.adjacents) in
    pushes_from lib (length sorted) 0 sorted
