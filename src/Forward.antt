-- ===== src/Forward.antt =====
-- agent_mes_forward.py: `Forwarder`, which sends the spool's events to the site service. The proofs are
-- in Delivery, Steady, Pace, Waits and Progress.
pub mod Sending
pub mod Delivery
pub mod Steady
pub mod Session
pub mod Loop
pub mod Pace
pub mod Waits
pub mod Progress
mod Tests
