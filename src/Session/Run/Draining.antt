-- ===== src/Session/Run/Draining.antt =====
-- The inner loop of spdy_session.cc that writes the output queue.
use mod_spdy.Common.{◌≡◌, ◌⊎◌, true, List, Option, none, some}
use mod_spdy.Frame.{Frame}
use mod_spdy.PriorityQueue.{PriorityQueue, pop}
use mod_spdy.Session.State.{Session}
use mod_spdy.Session.Work.{work_all}
use mod_spdy.Session.Work.{Work}
use mod_spdy.Protocol.{WindowSizes}

-- When the other threads are quiet: with as many turns as there are frames left, either the session is
-- stopped by a failed write or the output queue has nothing more to pop.
abbrev Ends : Session → Type 0
Ends s = (s.session_stopped ≡ true) ⊎ (pop s.output_queue ≡ none)

-- The process dies in a CHECK of another thread, or the loop ends by its own test.
abbrev pub Drains : WindowSizes → Option Session → Type 0
Drains sizes none = (ks : List Work) × (s : Session) × (work_all sizes ks s ≡ none)
Drains sizes (some s) = (s.session_stopped ≡ true) ⊎ (pop s.output_queue ≡ none)
