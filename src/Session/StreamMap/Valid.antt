-- ===== src/Session/StreamMap/Valid.antt =====
-- The IDs of the map of spdy_session.cc: they rise, and the counter counts the even ones.
use mod_spdy.Common.{
  ℕ, ◌+◌, ◌≤◌, ◌<◌, ◌≡◌, refl, ◌⊎◌, true, false, List, [], ◌∷◌, map, length, none, arith,
  if◌then◌else◌,
}
use mod_spdy.Stream.{Stream, is_even, is_server_push}
use mod_spdy.Session.StreamMap.{StreamMap, find}

-- The streams stand in the order of their IDs, all above `low`.
abbrev pub Above : ℕ → List Stream → Type 0
Above low [] = Unit
Above low (t ∷ ts) = (low < t.stream_id) × Above t.stream_id ts

abbrev pub IsSorted : List Stream → Type 0
IsSorted [] = Unit
IsSorted (t ∷ ts) = Above t.stream_id ts

-- The pushes among the streams.
abbrev pub pushes : List Stream → ℕ
pushes [] = 0
pushes (t ∷ ts) = (if is_server_push t then 1 else 0) + pushes ts

-- No push has an ID above the bound.
abbrev pub PushesBelow : ℕ → List Stream → Type 0
PushesBelow bound [] = Unit
PushesBelow bound (t ∷ ts) =
    ((is_server_push t ≡ false) ⊎ (t.stream_id ≤ bound)) × PushesBelow bound ts

-- The map is in order, its counter is right, the pushes are those of the session, and at most
-- `limit` streams are the client's.
pub record IsValid (bound limit : ℕ) (m : StreamMap) : Type 0 where
  pub sorted : IsSorted m.tasks
  pub counted : m.num_active_push_streams ≡ pushes m.tasks
  pub below : PushesBelow bound m.tasks
  pub few : length m.tasks ≤ m.num_active_push_streams + limit

-- A change in place leaves what an invariant reads: the IDs.
abbrev pub ids : List Stream → List ℕ
ids = map λ t. t.stream_id

abbrev SameIds : List Stream → List Stream → Type 0
SameIds ts us = ids ts ≡ ids us

SameIds-Above : (low : ℕ) (ts us : List Stream) → SameIds ts us → Above low ts → Above low us
SameIds-Above low [] [] e a = tt
SameIds-Above low [] (u ∷ us) e a = cc
SameIds-Above low (t ∷ ts) [] e a = cc
SameIds-Above low (t ∷ ts) (u ∷ us) e a = ground (arith, SameIds-Above t.stream_id ts us)

SameIds-IsSorted : (ts us : List Stream) → SameIds ts us → IsSorted ts → IsSorted us
SameIds-IsSorted [] [] e a = tt
SameIds-IsSorted [] (u ∷ us) e a = cc
SameIds-IsSorted (t ∷ ts) [] e a = cc
SameIds-IsSorted (t ∷ ts) (u ∷ us) e a = ground (arith, SameIds-Above t.stream_id ts us)

SameIds-pushes : (ts us : List Stream) → SameIds ts us → pushes ts ≡ pushes us
SameIds-pushes [] [] e = refl
SameIds-pushes [] (u ∷ us) e = cc
SameIds-pushes (t ∷ ts) [] e = cc
SameIds-pushes (t ∷ ts) (u ∷ us) e = ground (arith, SameIds-pushes ts us)

SameIds-PushesBelow :
    (bound : ℕ) (ts us : List Stream) → SameIds ts us → PushesBelow bound ts → PushesBelow bound us
SameIds-PushesBelow bound [] [] e b = tt
SameIds-PushesBelow bound [] (u ∷ us) e b = cc
SameIds-PushesBelow bound (t ∷ ts) [] e b = cc
SameIds-PushesBelow bound (t ∷ ts) (u ∷ us) e b = ground (arith, SameIds-PushesBelow bound ts us)

SameIds-length : (ts us : List Stream) → SameIds ts us → length ts ≡ length us
SameIds-length [] [] e = refl
SameIds-length [] (u ∷ us) e = cc
SameIds-length (t ∷ ts) [] e = cc
SameIds-length (t ∷ ts) (u ∷ us) e = ground (arith, SameIds-length ts us)

pub SameIds-IsValid :
    {bound limit : ℕ} (m n : StreamMap)
    → SameIds m.tasks n.tasks
    → n.num_active_push_streams ≡ m.num_active_push_streams
    → IsValid bound limit m
    → IsValid bound limit n
SameIds-IsValid {bound} {limit} m n e k v = record {
  sorted = SameIds-IsSorted m.tasks n.tasks e v.sorted;
  counted = omega (arith, v.counted, k, SameIds-pushes m.tasks n.tasks e);
  below = SameIds-PushesBelow bound m.tasks n.tasks e v.below;
  few = omega (arith, v.few, k, SameIds-length m.tasks n.tasks e);
}

-- A higher bound on the IDs of the pushes serves as well.
PushesBelow-mono :
    (bound bound' : ℕ) (ts : List Stream)
    → bound ≤ bound'
    → PushesBelow bound ts
    → PushesBelow bound' ts
PushesBelow-mono bound bound' [] h b = tt
PushesBelow-mono bound bound' (t ∷ ts) h b = ground (arith, PushesBelow-mono bound bound' ts)

pub IsValid-mono :
    {limit : ℕ} (bound bound' : ℕ) (m : StreamMap)
    → bound ≤ bound'
    → IsValid bound limit m
    → IsValid bound' limit m
IsValid-mono bound bound' m h v = record {
  sorted = v.sorted;
  counted = v.counted;
  below = PushesBelow-mono bound bound' m.tasks h v.below;
  few = v.few;
}

-- A push ID above all that were given out is not in use.
pub find-above :
    (bound id : ℕ) (ts : List Stream)
    → PushesBelow bound ts
    → bound < id
    → is_even id ≡ true
    → find id ts ≡ none
unfolding find
find-above bound id [] b h e = refl
find-above bound id (t ∷ ts) b h e = ground (arith, find-above bound id ts)
