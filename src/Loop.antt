-- ===== src/Loop.antt =====
-- The prompt loop of prompt.go.
pub mod Machine
pub mod Stream
pub mod Tools
pub mod Turn
pub mod Prompt
pub mod Keeps
pub mod KeepsTurn
pub mod Turns
pub mod InSync
pub mod Conclusion
pub mod AtTurn
pub mod Termination
pub mod Slots
pub mod Batch
pub mod Triples
pub mod Answers
pub mod Judged
pub mod Recorded
pub mod CutOff
