-- ===== src/Journal.antt =====
-- agent_journal.py: the history kept on the machine's PC, and the answers to requests for it.
pub mod Reply
pub mod Between
pub mod Paging
pub mod Writer
pub mod Writing
pub mod Server
pub mod Nonces
pub mod Replay
mod Tests
