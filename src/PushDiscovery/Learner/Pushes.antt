-- ===== src/PushDiscovery/Learner/Pushes.antt =====
-- The pushes that server_push_discovery_learner.cc proposes.
use native.Mathlib.Nat.{div-lt_iff_lt-mul}
use mathlib.Core.List.{Perm}
use mathlib.Core.List.Perm
use mod_spdy.Common.{
  ◌⊎◌, subst, sym, ℕ, suc, ◌+◌, ◌*◌, ◌/◌, ◌≤◌, ◌<◌, leb, length, ◌≡◌, refl, ap, ap₂, Bool, true,
  ◌&&◌, List, [], ◌∷◌, map, Option, none, some, if◌then◌else◌, arith,
}
use mod_spdy.Frame.{Bytes}
use mod_spdy.PushDiscovery.Learner.{
  AdjacentData, Push, Library, UrlTable, url_data, get_priority_from_extension,
  significant_adjacents, priority_or, pushes_from, get_pushes,
}

-- Priorities between 1 and 7.
unfoldable pub all_in_range : List Push → Bool
all_in_range [] = true
all_in_range (p ∷ ps) = (leb 1 p.priority && leb p.priority 7) && all_in_range ps

abbrev pub push_url : Push → Bytes
push_url p = p.adjacent_url

abbrev pub url_of : AdjacentData → Bytes
url_of d = d.adjacent_url

-- The share of the way through the list, of 6.
div-lt_size : (i size : ℕ) → i < size → i * 6 / size < 6
div-lt_size i size h =
    (div-lt_iff_lt-mul {k = size} {x = i * 6} {y = 6} (omega (arith, h))).1 (omega (arith, h))

extension-cases :
    (lib : Library) (url : Bytes)
    → (get_priority_from_extension lib url ≡ none) ⊎ (get_priority_from_extension lib url ≡ some 1)
unfolding get_priority_from_extension
extension-cases lib url = ground arith

priority-range :
    (n : ℕ) (o : Option ℕ)
    → n < 6
    → (o ≡ none) ⊎ (o ≡ some 1)
    → (leb 1 (priority_or (2 + n) o) && leb (priority_or (2 + n) o) 7) ≡ true
priority-range n none h c = ground arith
priority-range n (some p) h c = ground arith

pushes_from-all_in_range :
    (lib : Library) (size i : ℕ) (ds : List AdjacentData)
    → i + length ds ≤ size
    → all_in_range (pushes_from lib size i ds) ≡ true
unfolding all_in_range pushes_from
pushes_from-all_in_range lib size i [] h = refl
pushes_from-all_in_range lib size i (d ∷ ds) h =
    ap₂ ◌&&◌
      (priority-range (i * 6 / size) (get_priority_from_extension lib d.adjacent_url)
        (div-lt_size i size (omega (arith, h))) (extension-cases lib d.adjacent_url))
      (pushes_from-all_in_range lib size (suc i) ds (omega (arith, h)))

map-pushes_from :
    (lib : Library) (size i : ℕ) (ds : List AdjacentData)
    → map push_url (pushes_from lib size i ds) ≡ map url_of ds
unfolding pushes_from
map-pushes_from lib size i [] = refl
map-pushes_from lib size i (d ∷ ds) =
    ap (λ urls. d.adjacent_url ∷ urls) (map-pushes_from lib size (suc i) ds)

-- The elements of a list with a property.
pub keep : {A : Type 0} → (A → Bool) → List A → List A
keep p [] = []
keep p (x ∷ xs) = if p x then x ∷ keep p xs else keep p xs

-- At least half the first hits: with hits twice and one more, since the half is rounded down.
abbrev pub is_frequent : (first_hits : ℕ) → AdjacentData → Bool
is_frequent first_hits d = leb first_hits (2 * d.hit_count + 1)

abbrev pub data_of : Bytes × AdjacentData → AdjacentData
data_of entry = entry.1

leb-half : (first_hits hits : ℕ) → leb (first_hits / 2) hits ≡ leb first_hits (2 * hits + 1)
leb-half first_hits hits = ground arith

significant_adjacents-keep :
    (first_hits : ℕ) (entries : List (Bytes × AdjacentData))
    → significant_adjacents (first_hits / 2) entries
      ≡ keep (is_frequent first_hits) (map data_of entries)
unfolding significant_adjacents keep
significant_adjacents-keep first_hits [] = refl
significant_adjacents-keep first_hits ((k, d) ∷ entries) =
    rw (leb-half first_hits d.hit_count, significant_adjacents-keep first_hits entries) refl

-- If std::sort gives back the elements of its list in some order, then the URLs that GetPushes proposes are,
-- in some order, those of the page's adjacents d with first_hits ≤ 2 * d.hit_count + 1, which is to say
-- with at least half the first hits of the page, rounded down; and every priority is between 1 and 7.
pub get_pushes-Proposes :
    (lib : Library) (master_url : Bytes) (table : UrlTable)
    → ((ds : List AdjacentData) → Perm (lib.sort ds) ds)
    → (all_in_range (get_pushes lib master_url table) ≡ true)
      × Perm (map push_url (get_pushes lib master_url table)) (
          map url_of (
            keep
              (is_frequent (url_data master_url table).first_hit_count)
              (map data_of (url_data master_url table).adjacents)))
unfolding get_pushes
get_pushes-Proposes lib master_url table sorts =
    let page = url_data master_url table in
    let chosen = significant_adjacents (page.first_hit_count / 2) page.adjacents in
    let sorted = lib.sort chosen in
    (
      pushes_from-all_in_range lib (length sorted) 0 sorted (omega arith),
      subst
          (λ urls.
            Perm urls
              (map url_of (keep (is_frequent page.first_hit_count) (map data_of page.adjacents))))
          (sym (map-pushes_from lib (length sorted) 0 sorted))
          (subst (λ ds. Perm (map url_of sorted) (map url_of ds))
            (significant_adjacents-keep page.first_hit_count page.adjacents)
            (Perm.map url_of (sorts chosen))),
    )
