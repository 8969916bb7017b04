-- ===== src/Store.antt =====
-- apps/bokkie-web/src/store.rs: the client's copy of the user's Bots and conversations. `Snapshots`
-- holds the sets of snapshots, `State` the store's data, `Messages`, `Bots`, `RoutineLists`,
-- `Requests`, `Loads` and `Apply` its operations; the other children prove.
pub mod Snapshots
pub mod State
pub mod Messages
pub mod RoutineLists
pub mod Bots
pub mod Requests
pub mod Loads
pub mod Apply
pub mod Streaming
pub mod Repeats
pub mod Frames
pub mod Holding
pub mod Sessions
pub mod CatchUp
pub mod Loading
pub mod Arrivals
pub mod Older
