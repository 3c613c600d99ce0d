-- ===== src/Irc.antt =====
-- internal/irc: messages, casemapping, modes, ISUPPORT, limits and server detection.
pub mod CaseMap
pub mod Message
pub mod Modes
pub mod Isupport
pub mod Ircd
