-- ===== src/Link/Copying.antt =====
-- agent_mes_link.py: the outbox and the spool, step after step.
pub mod Batches
pub mod Stored
pub mod Run
pub mod Reports
pub mod Progress
