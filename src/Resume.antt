-- ===== src/Resume.antt =====
-- A client that resumes against the gateway's own log: `serve` of
-- crates/bokkie-gateway/src/routes/events.rs over the rows that crates/bokkie-gateway/src/events.rs
-- leaves in the table, while batches, prunes and restarts go on between the queries.
pub mod Reads
pub mod Broadcast
pub mod Session
