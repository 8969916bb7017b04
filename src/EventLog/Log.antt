-- ===== src/EventLog/Log.antt =====
-- events.rs: a user's log, its batches and their operations. `ok` says whether the database carried
-- out the statement. The clock's reading is an argument. A batch holds the log's lock from `begin`
-- until it is finished or dropped; `live` is all that was ever broadcast.
use bokkie.Prelude.{
  ℕ, ◌+◌, ◌-◌, ◌/◌, max, Bool, true, false, ◌&&◌, Option, none, some, List, [], ◌∷◌, ◌++◌, ltb,
  if◌then◌else◌,
}
use bokkie.Protocol.Routines.{Timestamp}
use bokkie.Protocol.Events.{Seq, Event, EventEnvelope}
use bokkie.EventLog.Rows.{Rows, insert_row, stored_last}

-- `UserLog`, with the committed rows that the database holds for the user.
pub record UserLog : Type 0 where
  pub rows : Rows
  pub last : Option Seq
  pub live : List EventEnvelope

-- `Batch`, with the rows as its transaction sees them.
pub record Batch : Type 0 where
  pub rows : Rows
  pub first : Seq
  pub previous : Seq
  pub pending : List EventEnvelope

abbrev pub or_stored : Option Seq → Rows → Seq
or_stored (some previous) rows = previous
or_stored none rows = stored_last rows

-- `EventLog::with_limits` keeps at least one event.
abbrev pub with_retention : ℕ → ℕ
with_retention retention = max retention 1

-- `Batch::begin`: the cache is taken first, also where the transaction then fails to start.
unfoldable pub begin : UserLog → Bool → UserLog × Option Batch
begin log ok =
    let first = or_stored log.last log.rows in
    (
      record log { last = none },
      if ok
          then some (record { rows = log.rows; first = first; previous = first; pending = [] })
          else none,
    )

-- `Batch::emit`: the batch, and whether the event joined it.
unfoldable pub emit : Batch → Timestamp → Event → Bool → Batch × Bool
emit b now event ok =
    let envelope : EventEnvelope = record { seq = b.previous + 1; at = now; event = event } in
    elim (insert_row envelope b.rows) [
      | none ↦ (b, false)
      | some rows' ↦
          if ok
          then (
            record b {
              rows = rows';
              previous = envelope.seq;
              pending = b.pending ++ envelope ∷ [];
            },
            true,
          )
          else (b, false)
    ]

-- `Batch::finish`: the log, the events committed, and the number up to which to prune the table,
-- which is a statement of its own once the lock is released. A commit that fails rolls back, and
-- leaves the cache empty.
unfoldable pub finish :
    ℕ → UserLog → Batch → Bool → UserLog × Option (List EventEnvelope) × Option Seq
finish retention log b ok =
    if ok
    then (
      record log { rows = b.rows; last = some b.previous; live = log.live ++ b.pending },
      some b.pending,
      if ltb (b.first / 256) (b.previous / 256) && ltb retention b.previous
          then some (b.previous - retention)
          else none,
    )
    else (log, none, none)

-- `EventLog::latest`: the number, and the cache filled.
unfoldable pub latest : UserLog → UserLog × Seq
latest log = let value = or_stored log.last log.rows in (record log { last = some value }, value)
