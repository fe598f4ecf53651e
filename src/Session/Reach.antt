-- ===== src/Session/Reach.antt =====
-- Sessions of spdy_session.cc after any interleaving of callbacks and steps of other threads.
use mod_spdy.Common.{
  subst, pos, ◌-ℤ◌, List, [], ◌>>=◌, refl, ℕ, ◌+◌, ◌%◌, ◌≤◌, ◌<◌, ◌≡◌, ◌⊎◌, inl, inr, ℤ, pos_part,
  true, false, ◌∷◌, Option, none, some, arith, if◌then◌else◌, Option-cases,
}
use mod_spdy.Frame.{HeaderBlock}
use mod_spdy.Protocol.{WindowSizes, IsSane, SpdyVersion, has_stream_windows}
use mod_spdy.Session.StreamMap.{num_active_client_streams, is_stream_active}
use mod_spdy.Session.StreamMap.Valid.{IsSorted, pushes}
use mod_spdy.Session.State.{Session, Wire, create, adjust_windows}
use mod_spdy.Session.Handlers.{Event, on_event}
use mod_spdy.Session.Push.{
  PushStatus, push_started, invalid_request_headers, associated_stream_inactive,
  cannot_push_ever_again, too_many_concurrent_pushes, push_internal_error,
  max_server_push_stream_id, start_server_push, try_push, take_push_id, open_push,
  initial_response_headers,
}
use mod_spdy.Session.Work.{Work, work, work_all}
use mod_spdy.Session.Valid.{
  IsValid, goaways, create-IsValid, resize-IsValid, adjust_windows-IsValid,
}
use mod_spdy.Session.Valid.Streams.{Keeps, keeps, ends}
use mod_spdy.Session.Valid.Events.{on_event-Keeps}
use mod_spdy.Session.Valid.Works.{work-Keeps, next_push_id-free}

-- The connection thread handles what the framer reports, or another thread works on a stream. While the
-- connection thread is in SetInitialWindowSize, others may take steps before it has the lock.
pub data Step (wire : Wire) (sizes : WindowSizes) (s : Session) : Session → Type 0 where
  handles : (e : Event) {s' : Session} → on_event wire sizes e s ≡ some s' → Step wire sizes s s'
  works : (k : Work) {s' : Session} → work sizes k s ≡ some s' → Step wire sizes s s'
  resizes :
      (size : ℕ) (ks : List Work) {s1 s' : Session}
      → has_stream_windows s.spdy_version ≡ true
      → 0 < size
      → size ≤ sizes.maximum
      → work_all sizes ks (record s { initial_window_size = size }) ≡ some s1
      → adjust_windows sizes (pos size -ℤ pos s.initial_window_size) s1 ≡ s'
      → Step wire sizes s s'

pub data Reach (wire : Wire) (sizes : WindowSizes) (version : SpdyVersion) (max_streams : ℤ)
    : Session → Type 0 where
  starts : Reach wire sizes version max_streams (create sizes version max_streams)
  next :
      {s s' : Session}
      → Reach wire sizes version max_streams s
      → Step wire sizes s s'
      → Reach wire sizes version max_streams s'

Keeps-some :
    {sizes : WindowSizes} (o : Option Session) (s : Session)
    → o ≡ some s
    → Keeps sizes o
    → IsValid sizes s
Keeps-some none s e k = cc
Keeps-some (some t) s e (keeps v) = rw (← some_eq t s e) v
  where
    some_eq : (t s : Session) → ◌≡◌ {A = Option Session} (some t) (some s) → t ≡ s
    some_eq t s e = cc

work_all-Keeps :
    {sizes : WindowSizes} (ks : List Work) (s : Session)
    → IsValid sizes s
    → Keeps sizes (work_all sizes ks s)
unfolding work_all
work_all-Keeps [] s v = keeps v
work_all-Keeps {sizes} (k ∷ ks) s v = all (work sizes k s) (work-Keeps k s v) (work_all-Keeps ks)
  where
    all :
        {go : Session → Option Session} (o : Option Session)
        → Keeps sizes o
        → ((s : Session) → IsValid sizes s → Keeps sizes (go s))
        → Keeps sizes (o >>= go)
    all none h go_on = ends
    all (some s) (keeps v) go_on = go_on s v

Step-IsValid :
    {wire : Wire} {sizes : WindowSizes} {s s' : Session}
    → Step wire sizes s s'
    → IsValid sizes s
    → IsValid sizes s'
Step-IsValid {wire} {s = s} {s' = s'} (handles e h) v =
    Keeps-some _ s' h (on_event-Keeps wire e s v)
Step-IsValid {s = s} {s' = s'} (works k h) v = Keeps-some _ s' h (work-Keeps k s v)
Step-IsValid {s = s} {s' = s'} (resizes size ks {s1} new h k e same) v =
    let v1 = Keeps-some _ s1 e (work_all-Keeps ks _ (resize-IsValid size s h k v)) in
    subst (IsValid _) same (adjust_windows-IsValid _ s1 v1)

pub Reach-IsValid :
    {wire : Wire} {sizes : WindowSizes} {version : SpdyVersion} {max_streams : ℤ} {s : Session}
    → IsSane sizes
    → Reach wire sizes version max_streams s
    → IsValid sizes s
Reach-IsValid {version = version} {max_streams = max_streams} h starts =
    create-IsValid version max_streams h
Reach-IsValid h (next r st) = Step-IsValid st (Reach-IsValid h r)

-- However callbacks and stream threads interleave: the stream map is in the order of its IDs without
-- duplicates, its counter of pushes counts the even IDs in it, and the client never has more streams
-- open than the server's limit for a connection.
pub map_lem :
    {wire : Wire} {sizes : WindowSizes} {version : SpdyVersion} {max_streams : ℤ} {s : Session}
    → IsSane sizes
    → Reach wire sizes version max_streams s
    → IsSorted s.stream_map.tasks
      × (s.stream_map.num_active_push_streams ≡ pushes s.stream_map.tasks)
      × (num_active_client_streams s.stream_map ≤ pos_part s.max_streams_per_connection)
unfolding num_active_client_streams
map_lem h r =
    let v = Reach-IsValid h r in let m = v.map in (m.sorted, m.counted, omega (arith, m.few))

-- However callbacks and stream threads interleave, they write at most one GOAWAY frame, and none that
-- the session does not count as sent; and its initial window for new streams is positive and within the
-- protocol's maximum.
pub goaways-le-one :
    {wire : Wire} {sizes : WindowSizes} {version : SpdyVersion} {max_streams : ℤ} {s : Session}
    → IsSane sizes
    → Reach wire sizes version max_streams s
    → (goaways s.written ≤ (if s.already_sent_goaway then 1 else 0))
      × (goaways s.written ≤ 1)
      × (0 < s.initial_window_size)
      × (s.initial_window_size ≤ sizes.maximum)
goaways-le-one h r = let v = Reach-IsValid h r in ground (arith, v.one_goaway)

-- When StartServerPush refuses, by the status it returns.
abbrev pub Refuses : PushStatus → ℕ → HeaderBlock → Session → Type 0
Refuses push_started associated request s = ⊥
Refuses invalid_request_headers associated request s = initial_response_headers request ≡ none
Refuses associated_stream_inactive associated request s =
    is_stream_active associated s.stream_map ≡ false
Refuses cannot_push_ever_again associated request s =
    (s.received_goaway ≡ true) ⊎ (max_server_push_stream_id ≤ s.last_server_push_stream_id)
Refuses too_many_concurrent_pushes associated request s =
    s.max_concurrent_pushes ≤ s.stream_map.num_active_push_streams
Refuses push_internal_error associated request s = ⊥

-- What StartServerPush may do to a session: it starts a push with the next even ID, or it refuses, for
-- the reason that its status names, and leaves all as it was.
abbrev pub Pushes :
    (associated priority : ℕ) → HeaderBlock → Session → PushStatus × Session → Type 0
Pushes associated priority request s (status, s') =
    ((status ≡ push_started)
      × (s'.last_server_push_stream_id ≡ s.last_server_push_stream_id + 2)
      × (s'.tasks_added ≡ (s.last_server_push_stream_id + 2, priority) ∷ s.tasks_added)
      × (s.received_goaway ≡ false)
      × (is_stream_active associated s.stream_map ≡ true)
      × (s.stream_map.num_active_push_streams < s.max_concurrent_pushes)
      × (s.last_server_push_stream_id < max_server_push_stream_id))
    ⊎ (Refuses status associated request s × (s' ≡ s))

try_push-Pushes :
    (sizes : WindowSizes) (associated depth priority : ℕ) (request initial : HeaderBlock)
    (s : Session)
    → is_stream_active (s.last_server_push_stream_id + 2) s.stream_map ≡ false
    → Pushes associated priority request s
        (try_push sizes associated depth priority request initial s)
unfolding try_push take_push_id open_push
try_push-Pushes sizes associated depth priority request initial s free = ground arith

-- StartServerPush in any session that callbacks and stream threads can bring about: it never finds
-- its next stream ID in use, so PUSH_INTERNAL_ERROR is not returned; it starts a push, with the next
-- even ID, only if no GOAWAY was received, the associated stream is active, the client's limit leaves
-- room and an ID is left; else it changes nothing, and its status names a reason that holds.
pub start_server_push-Pushes :
    {wire : Wire} {sizes : WindowSizes} {version : SpdyVersion} {max_streams : ℤ} {s : Session}
    (associated depth priority : ℕ) (request : HeaderBlock)
    → IsSane sizes
    → Reach wire sizes version max_streams s
    → Pushes associated priority request s
        (start_server_push sizes associated depth priority request s)
      × (s.last_server_push_stream_id % 2 ≡ 0)
      × (s.last_server_push_stream_id ≤ max_server_push_stream_id)
unfolding start_server_push
start_server_push-Pushes {sizes = sizes} {s = s} associated depth priority request h r =
    let v = Reach-IsValid h r in
    elim (Option-cases (initial_response_headers request)) [
      | inl missing ↦ (rw (missing, start_server_push) (inr (missing, refl)), v.even, v.ids_fit)
      | inr (initial, found) ↦ (
        rw (found, start_server_push)
            (try_push-Pushes sizes associated depth priority request initial s
              (next_push_id-free s v)),
        v.even,
        v.ids_fit,
      )
    ]
