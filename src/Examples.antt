-- ===== src/Examples.antt =====
-- Concrete runs: for each theorem with parameters an input on which it applies.
pub mod Sessions
pub mod Compacting
pub mod Summaries
pub mod Compactions
pub mod Shells
pub mod Commands
pub mod Tools
pub mod Messages
pub mod Prompts
pub mod Edits
