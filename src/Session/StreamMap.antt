-- ===== src/Session/StreamMap.antt =====
-- SpdyStreamMap of src/mod_spdy/common/spdy_session.cc: the active streams, in the order of their IDs.
-- A StreamTaskWrapper is its stream here; what its task does on a stream thread is `Stream`.
pub mod Valid
pub mod Adding
pub mod InPlace
use mod_spdy.Common.{
  ℕ, ◌+◌, ◌-◌, ltb, ◌==◌, ℤ, Bool, true, false, List, [], ◌∷◌, map, length, Option, none, some,
  if◌then◌else◌,
}
use mod_spdy.Frame.{Frame}
use mod_spdy.PriorityQueue.{PriorityQueue}
use mod_spdy.Protocol.{WindowSizes}
use mod_spdy.Stream.{Stream, is_server_push, abort_silently, adjust_output_window_size}

pub record StreamMap : Type 0 where
  pub tasks : List Stream
  pub num_active_push_streams : ℕ

unfoldable pub empty : StreamMap
empty = record { tasks = []; num_active_push_streams = 0 }

abbrev pub no_tasks : List Stream → Bool
no_tasks [] = true
no_tasks (s ∷ ts) = false

unfoldable pub is_empty : StreamMap → Bool
is_empty m = no_tasks m.tasks

unfoldable pub num_active_client_streams : StreamMap → ℕ
num_active_client_streams m = length m.tasks - m.num_active_push_streams

-- `tasks_.find(stream_id)`, and the stream of what it finds.
unfoldable pub find : ℕ → List Stream → Option Stream
find id [] = none
find id (s ∷ ts) = if s.stream_id == id then some s else find id ts

unfoldable pub get_stream : ℕ → StreamMap → Option Stream
get_stream id m = find id m.tasks

abbrev is_found : Option Stream → Bool
is_found none = false
is_found (some s) = true

unfoldable pub is_stream_active : ℕ → StreamMap → Bool
is_stream_active id m = is_found (find id m.tasks)

-- `tasks_[stream_id] = task_wrapper`
unfoldable pub assign : Stream → List Stream → List Stream
assign s [] = s ∷ []
assign s (t ∷ ts) =
    if ltb s.stream_id t.stream_id
    then s ∷ t ∷ ts
    else if s.stream_id == t.stream_id
    then s ∷ ts
    else t ∷ assign s ts

unfoldable pub add_stream_task : Stream → StreamMap → StreamMap
add_stream_task s m = record {
  tasks = assign s m.tasks;
  num_active_push_streams =
      if is_server_push s then m.num_active_push_streams + 1 else m.num_active_push_streams;
}

unfoldable pub erase : ℕ → List Stream → List Stream
erase id [] = []
erase id (t ∷ ts) = if t.stream_id == id then ts else t ∷ erase id ts

-- RemoveStreamTask, for the task of the stream; the counter of pushes is not 0 if it is a push.
unfoldable pub remove_stream_task : Stream → StreamMap → StreamMap
remove_stream_task s m = record {
  tasks = erase s.stream_id m.tasks;
  num_active_push_streams =
      if is_server_push s then m.num_active_push_streams - 1 else m.num_active_push_streams;
}

-- A stream that a method has changed in place.
unfoldable pub update : Stream → List Stream → List Stream
update s [] = []
update s (t ∷ ts) = if t.stream_id == s.stream_id then s ∷ ts else t ∷ update s ts

unfoldable pub put_stream : Stream → StreamMap → StreamMap
put_stream s m = record m { tasks = update s m.tasks }

-- The loop of AdjustAllOutputWindowSizes.
unfoldable pub adjust_all :
    WindowSizes → ℤ → List Stream → PriorityQueue Frame → List Stream × PriorityQueue Frame
adjust_all sizes delta [] q = ([], q)
adjust_all sizes delta (s ∷ ts) q =
    let (s', q') = adjust_output_window_size sizes delta s q in
    let (ts', q'') = adjust_all sizes delta ts q' in (s' ∷ ts', q'')

unfoldable pub adjust_all_output_window_sizes :
    WindowSizes → ℤ → StreamMap → PriorityQueue Frame → StreamMap × PriorityQueue Frame
unfolding adjust_all
adjust_all_output_window_sizes sizes delta m q =
    let (ts, q') = adjust_all sizes delta m.tasks q in (record m { tasks = ts }, q')

unfoldable pub abort_all_silently : StreamMap → StreamMap
abort_all_silently m = record m { tasks = map abort_silently m.tasks }
