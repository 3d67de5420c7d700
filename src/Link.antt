-- ===== src/Link.antt =====
-- agent_mes_link.py: the link between the agent's cycles and MillWright's, and the copying of
-- MillWright's outbox into the spool.
pub mod Current
pub mod CycleLink
pub mod Correlate
pub mod Recorded
pub mod Outbox
pub mod Copying
pub mod Operators
pub mod Worker
pub mod Drain
pub mod Facts
mod Tests
