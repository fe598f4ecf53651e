-- ===== src/Session.antt =====
-- The state of a session: src/mod_spdy/common/spdy_session.cc and .h.
-- A handler that the connection thread runs is a function of the whole state. What the session calls
-- outside is a parameter or a record of the calls: `Wire` decides what becomes of a frame that is to be
-- written, `tasks_added` and `executor_stopped` are the calls of the executor.
pub mod StreamMap
pub mod State
pub mod Handlers
pub mod Push
pub mod Work
pub mod Run
pub mod Valid
pub mod Reach
pub mod Opening
pub mod Settings
