-- ===== src/Allowances.antt =====
-- crates/bokkie-gateway/src/usage.rs: each user's allowance.
pub mod Meter
pub mod Counts
pub mod Windows
pub mod History
pub mod Growth
pub mod Reported
pub mod Buckets
pub mod Sparse
