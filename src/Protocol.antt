-- ===== src/Protocol.antt =====
-- crates/bokkie-protocol: the data that the gateway and the client exchange.
pub mod Api
pub mod Routines
pub mod Clock
pub mod Chars
pub mod Events
