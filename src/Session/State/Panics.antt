-- ===== src/Session/State/Panics.antt =====
-- internal/session: where a message from the network gives a state, not a panic.
pub mod Commands
pub mod Numerics
pub mod Apply
use go_bnc.Base.{}
