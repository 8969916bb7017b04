-- ===== src/Routines.antt =====
-- crates/bokkie-gateway/src/routines: routines, their runs, and the scheduler.
pub mod Rows
pub mod Reasons
pub mod Checks
pub mod Columns
pub mod Lookups
pub mod RoutineChanges
pub mod Changes
pub mod Runs
pub mod Edits
pub mod Scheduler
pub mod Starts
pub mod System
pub mod Outcomes
pub mod Sound
pub mod Writes
pub mod RoutineWrites
pub mod Statements
pub mod RoutineStatements
pub mod Endings
pub mod Batches
pub mod Owners
pub mod Attempts
pub mod Invariant
pub mod Success
pub mod Progress
pub mod Failures
pub mod Liveness
pub mod Marked
pub mod Deadlines
