-- ===== src/Session/State/Panics/Apply.antt =====
-- internal/session/state.go: where `applyState` gives a state, not a panic.
use go_bnc.Irc.Message.{Message}
use go_bnc.Base.{byte_key, text_key}
