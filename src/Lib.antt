-- ===== src/Lib.antt =====
-- Bokkie: a gateway that runs a household's Bots, and the web application that shows them. The
-- gateway keeps one log of events for each user; a client loads snapshots over HTTP and follows the
-- log over a WebSocket. This library models the path of an event from the gateway's database to the
-- client's copy of a conversation:
--
-- - `Protocol` (crates/bokkie-protocol/src/api.rs, events.rs and lib.rs): the bodies, the events and
--   the socket's frames, with the source's constructors and fields. Identifiers, timestamps and
--   sequence numbers are unbounded natural numbers (`i64` and `u64` there; a log never comes near
--   2^63 entries), a text is the list of its characters.
-- - `EventLog` (crates/bokkie-gateway/src/events.rs): `Rows` is one user's part of the table
--   `events` under the SQL statements, `Log` and `Append` the functions of `Batch` and `EventLog`,
--   each with an argument that says whether the database carried it out, and `System` the actions
--   that can follow one another: batches that begin, emit, commit, fail or are dropped, prunes that
--   run late, reads and restarts of the gateway. A batch holds the log's lock and the database's
--   write lock.
-- - `EventSocket` (crates/bokkie-gateway/src/routes/events.rs): `Replay` is `serve` up to the live
--   frame, over the rows that each of its queries finds, and `Relay` the loop after it, one turn for
--   each thing that arrives. The list of reads is the loop's fuel: one read for each event that is
--   still to send is enough. Whose Bot a client names is a parameter. A timeout or a failed send
--   ends the socket at once and is left out.
-- - `Connection` (apps/bokkie-web/src/connection.rs): the policy of the client's socket, `Machine`
--   for its data, `Steps`, `Frames` and `Handle` for its functions. Its counters are `u32`, with the
--   wrapping and saturating additions of the source.
-- - `Store` (apps/bokkie-web/src/store.rs): the client's copy of the user's Bots, conversations and
--   routines, a record with one function for each method; maps are lists in the order of their keys,
--   sets are lists. A load's held events stay in the list while they are replayed.
-- - `Presence` (crates/bokkie-gateway/src/presence.rs): the Bots that each user's devices show, as the
--   `shows` effects of `EventSocket.Relay` say; the clock's reading is an argument.
-- - `Resume`: a client of `Connection` that resumes against `EventSocket` over the rows of
--   `EventLog`, with the log at work between the queries.
-- - `Address` (crates/bokkie-gateway/src/http/address.rs): which addresses the gateway may connect to
--   for its tools; shifts and masks are divisions by powers of two.
-- - `Schedule` (crates/bokkie-gateway/src/routines/schedule.rs): the times at which a routine runs;
--   what the time-zone library `jiff` answers of a zone is a parameter. The loop of `times` has fuel
--   for the 24 hours of a day.
-- - `Routines` (crates/bokkie-gateway/src/routines/mod.rs and store.rs, and the start of a run in
--   bots/service.rs): the tables of routines and runs, `Rows` for their columns and for code that
--   reads, writes and fails, `Lookups`, `RoutineChanges` and `Changes` for the statements, `Runs`,
--   `Scheduler`, `Edits` and `Starts` for the functions over them, and `System` for the batches as
--   steps in any order. A batch that fails leaves the tables as they were; a statement fails only
--   where a row is missing or a name is taken. What the Bot's lock, the allowance, the app server and
--   the turn answer to a start is any answer. Times are natural numbers, since 1970.
-- - `Allowances` (crates/bokkie-gateway/src/usage.rs): `Meter` has the tables of turns, tokens and
--   threads and the functions on them, with the SQL as functions on lists of rows; a row's id is one
--   that no row has. `Buckets` is the cache of the subscription's rate limits, which
--   `Reported` (crates/bokkie-codex/src/protocol.rs) has as Codex sends them. `Counts`, `Windows`,
--   `History`, `Growth` and `Sparse` are proofs, over actions, reports and updates one after another.
-- - `Maps`: the source's maps, as lists of entries.
-- - `Tests`: runs on small inputs, and every theorem at a concrete input.
--
-- The components meet where the frames of `EventSocket.Replay.opening`, over the rows of `EventLog`,
-- are the inputs of `Connection.Handle.run`, whose `apply` commands are the events of
-- `Store.Apply.apply`.
--
-- Not modelled: the Bots' turns, pushes, tools, accounts and HTTP routes of the gateway, which are
-- mostly SQL, processes and HTTP, the JSON encoding, and the application's views. Of the routines,
-- the tasks that hold runs, the pages of the history and the texts for people are left out, and of
-- usage.rs the list of users whose usage has rolled over.
pub mod Prelude
pub mod Protocol
pub mod Connection
pub mod EventLog
pub mod EventSocket
pub mod Maps
pub mod Store
pub mod Resume
pub mod Presence
pub mod Address
pub mod Schedule
pub mod Routines
pub mod Allowances
mod Tests
