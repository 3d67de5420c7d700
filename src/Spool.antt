-- ===== src/Spool.antt =====
-- agent_mes_spool.py: the durable event spool. `State` holds the tables, `Store` the operations on them,
-- `Epoch` the opening of the database; the other modules hold the proofs.
pub mod State
pub mod Store
pub mod Epoch
pub mod Inserted
pub mod Append
pub mod Rows
pub mod Order
pub mod Success
mod Tests
