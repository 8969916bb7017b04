-- ===== src/Presence.antt =====
-- crates/bokkie-gateway/src/presence.rs: which Bots each user's devices show. `Viewers` holds the
-- data and the operations; the other children prove.
pub mod Viewers
pub mod Listing
pub mod Saying
pub mod Words
