-- ===== src/Tracker.antt =====
-- program_tracker.py: where a cycle started, how far it got and whether it reached M2 / M30.
-- `Program` is `ProgramInfo`, `Lines` is `CycleLineTracker`, `File` is `ProgramFile`; the other modules
-- are named for what they prove.
pub mod Program
pub mod Ascending
pub mod Landmarks
pub mod Lines
pub mod Start
pub mod End
pub mod File
pub mod Scanner
pub mod Scanned
pub mod Macros
pub mod MacroReads
mod Tests
