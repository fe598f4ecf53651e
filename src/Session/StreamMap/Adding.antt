-- ===== src/Session/StreamMap/Adding.antt =====
-- New and finished streams in the map of spdy_session.cc.
use mod_spdy.Common.{
  ℕ, ◌+◌, ◌≤◌, ◌<◌, ◌≡◌, refl, ◌⊎◌, true, false, List, [], ◌∷◌, length, none, some, arith,
  if◌then◌else◌,
}
use mod_spdy.Stream.{Stream, is_server_push}
use mod_spdy.Session.StreamMap.{
  StreamMap, find, assign, erase, add_stream_task, remove_stream_task, is_stream_active, get_stream,
  num_active_client_streams,
}
use mod_spdy.Session.StreamMap.Valid.{Above, IsSorted, pushes, PushesBelow, IsValid}

assign-Above :
    (low : ℕ) (s : Stream) (ts : List Stream)
    → low < s.stream_id
    → Above low ts
    → Above low (assign s ts)
unfolding assign
assign-Above low s [] h a = ground arith
assign-Above low s (t ∷ ts) h a = ground (arith, assign-Above t.stream_id s ts)

assign-IsSorted : (s : Stream) (ts : List Stream) → IsSorted ts → IsSorted (assign s ts)
unfolding assign
assign-IsSorted s [] a = ground arith
assign-IsSorted s (t ∷ ts) a = ground (arith, assign-Above t.stream_id s ts)

-- An ID that is not in use adds a stream.
assign-pushes :
    (s : Stream) (ts : List Stream)
    → find s.stream_id ts ≡ none
    → pushes (assign s ts) ≡ (if is_server_push s then 1 else 0) + pushes ts
unfolding assign find
assign-pushes s [] e = refl
assign-pushes s (t ∷ ts) e = ground (arith, assign-pushes s ts)

assign-length :
    (s : Stream) (ts : List Stream)
    → find s.stream_id ts ≡ none
    → length (assign s ts) ≡ length ts + 1
unfolding assign find
assign-length s [] e = refl
assign-length s (t ∷ ts) e = ground (arith, assign-length s ts)

assign-PushesBelow :
    (bound : ℕ) (s : Stream) (ts : List Stream)
    → (is_server_push s ≡ false) ⊎ (s.stream_id ≤ bound)
    → PushesBelow bound ts
    → PushesBelow bound (assign s ts)
unfolding assign
assign-PushesBelow bound s [] h b = ground arith
assign-PushesBelow bound s (t ∷ ts) h b = ground (arith, assign-PushesBelow bound s ts)

erase-Above : (low id : ℕ) (ts : List Stream) → Above low ts → Above low (erase id ts)
unfolding erase
erase-Above low id [] a = tt
erase-Above low id (t ∷ ts) a =
    ground (arith, erase-Above t.stream_id id ts, weaken low t.stream_id ts)
  where
    weaken : (low mid : ℕ) (ts : List Stream) → low < mid → Above mid ts → Above low ts
    weaken low mid [] h a = tt
    weaken low mid (t ∷ ts) h a = ground arith

erase-IsSorted : (id : ℕ) (ts : List Stream) → IsSorted ts → IsSorted (erase id ts)
unfolding erase
erase-IsSorted id [] a = tt
erase-IsSorted id (t ∷ ts) a = ground (arith, erase-Above t.stream_id id ts, sorted t.stream_id ts)
  where
    sorted : (low : ℕ) (ts : List Stream) → Above low ts → IsSorted ts
    sorted low [] a = tt
    sorted low (t ∷ ts) a = a.1

erase-pushes :
    (id : ℕ) (ts : List Stream) (t : Stream)
    → find id ts ≡ some t
    → pushes ts ≡ (if is_server_push t then 1 else 0) + pushes (erase id ts)
unfolding erase find
erase-pushes id [] t e = cc
erase-pushes id (u ∷ ts) t e = ground (arith, erase-pushes id ts t)

erase-length :
    (id : ℕ) (ts : List Stream) (t : Stream)
    → find id ts ≡ some t
    → length ts ≡ length (erase id ts) + 1
unfolding erase find
erase-length id [] t e = cc
erase-length id (u ∷ ts) t e = ground (arith, erase-length id ts t)

erase-PushesBelow :
    (bound id : ℕ) (ts : List Stream) → PushesBelow bound ts → PushesBelow bound (erase id ts)
unfolding erase
erase-PushesBelow bound id [] b = tt
erase-PushesBelow bound id (t ∷ ts) b = ground (arith, erase-PushesBelow bound id ts)

pub add_stream_task-IsValid :
    {bound limit : ℕ} (s : Stream) (m : StreamMap)
    → is_stream_active s.stream_id m ≡ false
    → (is_server_push s ≡ false) ⊎ (s.stream_id ≤ bound)
    → (is_server_push s ≡ true) ⊎ (num_active_client_streams m < limit)
    → IsValid bound limit m
    → IsValid bound limit (add_stream_task s m)
unfolding add_stream_task is_stream_active num_active_client_streams
add_stream_task-IsValid {bound} s m e h k v = record {
  sorted = assign-IsSorted s m.tasks v.sorted;
  counted = ground (arith, assign-pushes s m.tasks, v.counted);
  below = assign-PushesBelow bound s m.tasks h v.below;
  few = ground (arith, assign-length s m.tasks, v.few);
}

pub remove_stream_task-IsValid :
    {bound limit : ℕ} (m : StreamMap) (t : Stream)
    → get_stream t.stream_id m ≡ some t
    → IsValid bound limit m
    → IsValid bound limit (remove_stream_task t m)
unfolding remove_stream_task get_stream
remove_stream_task-IsValid {bound} m t e v = record {
  sorted = erase-IsSorted t.stream_id m.tasks v.sorted;
  counted = ground (arith, erase-pushes t.stream_id m.tasks t e, v.counted);
  below = erase-PushesBelow bound t.stream_id m.tasks v.below;
  few = ground (
    arith,
    erase-length t.stream_id m.tasks t e,
    erase-pushes t.stream_id m.tasks t e,
    v.counted,
    v.few,
  );
}
