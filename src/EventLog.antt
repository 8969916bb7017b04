-- ===== src/EventLog.antt =====
-- crates/bokkie-gateway/src/events.rs: one user's event log. `Rows` is the table as the SQL
-- statements use it, `Log` the log and its batches, `System` everything that happens to one user's
-- log, `Append` the events without a batch of their own; the other children prove.
pub mod Rows
pub mod Log
pub mod System
pub mod Numbering
pub mod Invariant
pub mod Operations
pub mod Guarantees
pub mod Append
