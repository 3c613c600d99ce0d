-- ===== src/Keeper.antt =====
-- internal/keeper: the process that holds the uplink sockets.
pub mod Ring
pub mod Blob
