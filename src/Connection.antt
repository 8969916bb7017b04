-- ===== src/Connection.antt =====
-- apps/bokkie-web/src/connection.rs: the event WebSocket's connection policy. `Machine` holds the
-- data and the constants, `Steps`, `Frames` and `Handle` the operations; the other children prove.
pub mod Machine
pub mod Steps
pub mod Frames
pub mod Handle
pub mod Order
pub mod Resources
pub mod Backoff
pub mod Terminal
pub mod Viewing
