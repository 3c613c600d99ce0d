-- ===== src/Brain.antt =====
-- internal/brain: the driver of the keeper's networks.
pub mod Reconnect
