-- ===== src/EventSocket.antt =====
-- crates/bokkie-gateway/src/routes/events.rs: one event WebSocket as the gateway serves it. `Replay`
-- is what it sends before the socket is live, `Relay` what it does after; the other children prove.
pub mod Replay
pub mod Relay
pub mod Pages
pub mod Delivery
pub mod Following
pub mod Contents
