-- ===== src/EventLog/Operations.antt =====
-- Each operation on the log and its batches keeps what `Invariant` states.
use mathlib.Core.List.{append-nil, append_assoc}
use bokkie.Prelude.{
  ℕ, zero, suc, ◌+◌, ◌-◌, ◌≤◌, ◌≡◌, refl, sym, ap, inl, inr, Bool, true, false, some, List, [], ◌∷◌,
  ◌++◌, arith, length, All, length-append,
}
use bokkie.Protocol.Routines.{Timestamp}
use bokkie.Protocol.Events.{Seq, Event, EventEnvelope}
use bokkie.EventLog.Rows.{insert_row, delete_up_to}
use bokkie.EventLog.Log.{UserLog, Batch, begin, emit, finish}
use bokkie.EventLog.System.{pick, unpick, with_prune}
use bokkie.EventLog.Numbering.{
  Consecutive-at, Consecutive-append, insert_row-last, drop-append, drop-drop, delete_up_to-drop,
}
use bokkie.EventLog.Invariant.{
  Stored, Open, OpenBatch, Prunable, stored_last-Stored, length-rows, rows-Consecutive, gone-le,
}

pub begin-Stored : (r : ℕ) (log : UserLog) (ok : Bool) → Stored r log → Stored r (begin log ok).0
unfolding begin
begin-Stored r log ok v = record {
  gone = v.gone;
  numbered = v.numbered;
  kept = v.kept;
  retained = v.retained;
  cached = inl refl;
}

pub begin-Open :
    (r : ℕ) (log : UserLog) (ok : Bool)
    → 1 ≤ r
    → Stored r log
    → OpenBatch (begin log ok).0 (begin log ok).1
unfolding begin
begin-Open r log false h v = tt
begin-Open r log true h v = record {
  waits = refl;
  starts = ground (arith, stored_last-Stored r log h v);
  continues = tt;
  counts = ground (arith, stored_last-Stored r log h v);
  sees = sym (append-nil log.rows);
}

abbrev pub entry : Batch → Timestamp → Event → EventEnvelope
entry b now e = record { seq = b.previous + 1; at = now; event = e }

abbrev pub extended : Batch → EventEnvelope → Batch
extended b e = record b { rows = b.rows ++ e ∷ []; previous = e.seq; pending = b.pending ++ e ∷ [] }

insert_row-Open :
    (r : ℕ) (log : UserLog) (b : Batch) (now : Timestamp) (e : Event)
    → Stored r log
    → Open log b
    → insert_row (entry b now e) b.rows ≡ some (b.rows ++ entry b now e ∷ [])
insert_row-Open r log b now e v o =
    insert_row-last v.gone (entry b now e) b.rows
      (omega
        (arith, ap length o.sees, length-append log.rows b.pending, length-rows r log v, o.counts))
      (rw o.sees (
        Consecutive-append v.gone log.rows b.pending (rows-Consecutive r log v)
          (Consecutive-at b.pending (omega (arith, length-rows r log v)) o.continues)))

-- The primary key refuses no event of an open batch.
pub emit_lem :
    (r : ℕ) (log : UserLog) (b : Batch) (now : Timestamp) (e : Event)
    → Stored r log
    → Open log b
    → emit b now e true ≡ (extended b (entry b now e), true)
unfolding emit
emit_lem r log b now e v o = rw (insert_row-Open r log b now e v o, emit)

extended-Open :
    (log : UserLog) (b : Batch) (now : Timestamp) (e : Event)
    → Open log b
    → Open log (extended b (entry b now e))
extended-Open log b now e o = record {
  waits = o.waits;
  starts = o.starts;
  continues =
      Consecutive-append (length log.live) b.pending (entry b now e ∷ []) o.continues
        (omega (arith, o.counts), tt);
  counts = omega (arith, o.counts, length-append b.pending (entry b now e ∷ []));
  sees = rw (o.sees, append_assoc log.rows b.pending (entry b now e ∷ []));
}

pub emit_failed :
    (r : ℕ) (log : UserLog) (b : Batch) (now : Timestamp) (e : Event)
    → Stored r log
    → Open log b
    → emit b now e false ≡ (b, false)
unfolding emit
emit_failed r log b now e v o = rw (insert_row-Open r log b now e v o, emit)

pub emit-Open :
    (r : ℕ) (log : UserLog) (b : Batch) (now : Timestamp) (e : Event) (ok : Bool)
    → Stored r log
    → Open log b
    → Open log (emit b now e ok).0
emit-Open r log b now e true v o = rw (emit_lem r log b now e v o) (extended-Open log b now e o)
emit-Open r log b now e false v o = rw (emit_failed r log b now e v o) o

pub finish-Stored :
    (r : ℕ) (log : UserLog) (b : Batch) (ok : Bool)
    → Stored r log
    → Open log b
    → Stored r (finish r log b ok).0
unfolding finish
finish-Stored r log b false v o = v
finish-Stored r log b true v o = record {
  gone = v.gone;
  numbered =
      Consecutive-append 0 log.live b.pending v.numbered
        (Consecutive-at b.pending (omega arith) o.continues);
  kept = rw (o.sees, drop-append v.gone log.live b.pending (gone-le r log v), v.kept);
  retained = omega (arith, v.retained, length-append log.live b.pending);
  cached = inr (ap some (omega (arith, o.counts, length-append log.live b.pending)));
}

-- A prune removes the oldest rows, and none within the retention.
pub delete-Stored :
    (r : ℕ) (log : UserLog) (u : Seq)
    → Prunable r (length log.live) u
    → Stored r log
    → Stored r (record log { rows = delete_up_to u log.rows })
delete-Stored r log u p v = record {
  gone = v.gone + (u - v.gone);
  numbered = v.numbered;
  kept =
      rw (delete_up_to-drop v.gone u log.rows (rows-Consecutive r log v), v.kept)
        (drop-drop v.gone (u - v.gone) log.live);
  retained = omega (arith, v.retained);
  cached = v.cached;
}

All-mono : (n m r : ℕ) (us : List Seq) → n ≤ m → All (Prunable r n) us → All (Prunable r m) us
All-mono n m r [] h a = tt
All-mono n m r (u ∷ us) h a = (omega (arith, a.0), All-mono n m r us h a.1)

pub finish-Prunable :
    (r : ℕ) (log : UserLog) (b : Batch) (ok : Bool) (us : List Seq)
    → Open log b
    → All (Prunable r (length log.live)) us
    → All (Prunable r (length (finish r log b ok).0.live)) (with_prune (finish r log b ok).2 us)
unfolding finish
finish-Prunable r log b false us o h = h
finish-Prunable r log b true us o h = ground (
  arith,
  All-mono (length log.live) (length (log.live ++ b.pending)) r us
      (omega (arith, length-append log.live b.pending)) h,
  o.counts,
  length-append log.live b.pending,
)

pub pick-Prunable :
    (i : ℕ) (us : List Seq) {u : Seq} (n r : ℕ)
    → pick i us ≡ some u
    → All (Prunable r n) us
    → Prunable r n u
pick-Prunable i [] n r e h = cc
pick-Prunable zero (u ∷ us) n r e h = ground arith
pick-Prunable (suc i) (u ∷ us) n r e h = pick-Prunable i us n r e h.1

pub unpick-Prunable :
    (i : ℕ) (us : List Seq) (n r : ℕ) → All (Prunable r n) us → All (Prunable r n) (unpick i us)
unpick-Prunable i [] n r h = tt
unpick-Prunable zero (u ∷ us) n r h = h.1
unpick-Prunable (suc i) (u ∷ us) n r h = (h.0, unpick-Prunable i us n r h.1)
