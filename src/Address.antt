-- ===== src/Address.antt =====
-- crates/bokkie-gateway/src/http/address.rs: which addresses the gateway may connect to. `Ranges`
-- holds the tables and the tests; the other child proves.
pub mod Ranges
pub mod Public
