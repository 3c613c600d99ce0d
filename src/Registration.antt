-- ===== src/Registration.antt =====
-- internal/registration: the registration of an uplink as a pure state machine.
pub mod Text
pub mod Base64
pub mod State
pub mod Nick
pub mod Sasl
pub mod Step
pub mod Post
pub mod Runs
pub mod Announce
pub mod Replay
pub mod Validity
pub mod Offers
pub mod Required
use go_bnc.Base.{}
