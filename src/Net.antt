-- ===== src/Net.antt =====
-- agent_net.py: where status packets are sent.
pub mod Interfaces
pub mod Targets
pub mod Sender
pub mod Sources
pub mod Listed
pub mod Confined
pub mod Histories
pub mod Allowed
mod Tests
