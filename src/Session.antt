-- ===== src/Session.antt =====
-- internal/session: the state that the bouncer keeps for one network and its clients.
pub mod Tracker
pub mod State
