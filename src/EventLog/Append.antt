-- ===== src/EventLog/Append.antt =====
-- events.rs: `EventLog::append`, an event that announces no change of the database.
use bokkie.Prelude.{
  ℕ, ◌+◌, ◌≡◌, refl, sym, ap, ◌≤◌, subst, Bool, true, false, ◌&&◌, Option, none, some, List, [],
  ◌∷◌, ◌++◌, arith, length,
}
use mathlib.Core.List.{append-nil}
use bokkie.Protocol.Routines.{Timestamp}
use bokkie.Protocol.Events.{Seq, Event, EventEnvelope}
use bokkie.EventLog.Rows.{Rows}
use bokkie.EventLog.Log.{UserLog, Batch, with_retention, or_stored, begin, emit, finish}
use bokkie.EventLog.System.{Action}
use bokkie.EventLog.Invariant.{Stored, Open}
use bokkie.EventLog.Operations.{begin-Open, begin-Stored, entry, extended, emit_lem, emit_failed}
use bokkie.EventLog.Guarantees.{history, run-empty-Inv}

-- `Vec::pop`.
abbrev pub last_of : Option (List EventEnvelope) → Option EventEnvelope
last_of none = none
last_of (some []) = none
last_of (some (e ∷ es)) = elim (last_of (some es)) [ none ↦ some e | some l ↦ some l ]

-- A batch whose event was refused is dropped.
unfoldable pub append_on :
    ℕ → UserLog → Batch × Bool → Bool → UserLog × Option EventEnvelope × Option Seq
append_on retention log (b, false) commits = (log, none, none)
append_on retention log (b, true) commits =
    let (log', sent, up_to) = finish retention log b commits in (log', last_of sent, up_to)

-- The log, the event appended, and the number up to which to prune the table.
unfoldable pub append :
    ℕ
    → UserLog
    → Timestamp
    → Event
    → Bool
    → Bool
    → Bool
    → UserLog × Option EventEnvelope × Option Seq
unfolding append_on
append retention log now event begins emits commits =
    let (log', batch) = begin log begins in
    elim batch [
      | none ↦ (log', none, none)
      | some b ↦ append_on retention log' (emit b now event emits) commits
    ]

abbrev pub Result : Type 0
Result = UserLog × Option EventEnvelope × Option Seq

abbrev pub only : Bool → EventEnvelope → List EventEnvelope
only true e = e ∷ []
only false e = []

abbrev pub reply : Bool → EventEnvelope → Option EventEnvelope
reply true e = some e
reply false e = none

-- The event is returned, stored and broadcast, or none of these.
pub record Appends (rows : Rows) (live : List EventEnvelope) (e : EventEnvelope) (ok : Bool)
    (r : Result) : Type 0 where
  pub returned : r.1 ≡ reply ok e
  pub stored : r.0.rows ≡ rows ++ only ok e
  pub broadcast : r.0.live ≡ live ++ only ok e

nothing :
    (log : UserLog) {e : EventEnvelope} {cache : Option Seq}
    → Appends log.rows log.live e false (record log { last = cache }, none, none)
nothing log = record {
  returned = refl;
  stored = sym (append-nil log.rows);
  broadcast = sym (append-nil log.live);
}

finish-Appends :
    (r : ℕ) (log : UserLog) (b : Batch) (e : EventEnvelope) (ok : Bool)
    → b.pending ≡ []
    → b.rows ≡ log.rows
    → Appends log.rows log.live e ok (append_on r log (extended b e, true) ok)
unfolding append_on finish
finish-Appends r log b e false p q = nothing log
finish-Appends r log b e true p q = record {
  returned = ap (λ xs. last_of (some (xs ++ e ∷ []))) p;
  stored = ap (λ xs. xs ++ e ∷ []) q;
  broadcast = ap (λ xs. log.live ++ (xs ++ e ∷ [])) p;
}

opened : UserLog → Batch
opened log = record {
  rows = log.rows;
  first = or_stored log.last log.rows;
  previous = or_stored log.last log.rows;
  pending = [];
}

append-Stored :
    (r : ℕ) (log : UserLog) (now : Timestamp) (event : Event) (begins emits commits : Bool)
    → 1 ≤ r
    → Stored r log
    → Appends log.rows log.live
        (record { seq = length log.live + 1; at = now; event = event })
        (begins && emits && commits)
        (append r log now event begins emits commits)
unfolding append begin opened
append-Stored r log now event false emits commits h v = nothing log
append-Stored r log now event true false commits h v =
    rw (emit_failed r _ _ now event (begin-Stored r log true v) (begin-Open r log true h v))
      (nothing log)
append-Stored r log now event true true commits h v =
    let b : Batch = opened log in
    let o : Open (record log { last = none }) b = begin-Open r log true h v in
    let e = entry b now event in
    rw (emit_lem r _ _ now event (begin-Stored r log true v) o) (
      subst
        (λ n.
          Appends log.rows log.live (record { seq = n; at = now; event = event }) commits
            (append_on r (record log { last = none }) (extended b e, true) commits))
        (omega (arith, o.counts))
        (finish-Appends r (record log { last = none }) b e commits refl refl))

-- After any history of a user's log, appending an event returns it under the
-- next number, adds it to the table and broadcasts it, where the database carries out all three of
-- the statements; where one of them fails, it does none of these.
pub append-history :
    (retention : ℕ) (actions : List Action) (now : Timestamp) (event : Event)
    (begins emits commits : Bool)
    → Appends
        (history retention actions).rows
        (history retention actions).live
        (record { seq = length (history retention actions).live + 1; at = now; event = event })
        (begins && emits && commits)
        (append
          (with_retention retention)
          (history retention actions)
          now
          event
          begins
          emits
          commits)
append-history retention actions now event begins emits commits =
    append-Stored (with_retention retention) (history retention actions) now event begins emits
      commits (omega arith) (run-empty-Inv retention actions).stored
