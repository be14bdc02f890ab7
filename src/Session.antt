-- ===== src/Session.antt =====
-- session.go and session/: the session backends.
pub mod Memory
pub mod Log
pub mod Internal
pub mod FilePath
pub mod Jsonl
