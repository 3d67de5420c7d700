-- ===== src/Cycle.antt =====
-- cycle_time_calculator.py: the cycle timer and part counter. `State` holds the data and the private
-- helpers of the class, `Operations` its methods; the other modules are named for what they prove.
pub mod State
pub mod Operations
pub mod Invariant
pub mod Accounting
pub mod Timing
pub mod Snapshot
mod Tests
