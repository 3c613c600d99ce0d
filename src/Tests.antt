-- ===== src/Tests.antt =====
-- Concrete inputs on which the theorems of the library apply.
mod Messages
mod Stores
mod Requests
mod Pacing
mod Capabilities
mod Channels
mod Supported
mod Registering
