-- ===== src/EventLog/Guarantees.antt =====
-- What the gateway's clients and its own code rely on, for every history of one user's log.
use bokkie.Prelude.{
  Option-cases, if◌then◌else◌, ℕ, ◌≤◌, ◌≡◌, refl, inl, inr, Bool, true, false, Option, none, some,
  List, [], ◌∷◌, arith, length, All,
}
use bokkie.Protocol.Events.{Seq}
use bokkie.EventLog.Rows.{delete_up_to}
use bokkie.EventLog.Log.{UserLog, Batch, latest, with_retention}
use bokkie.EventLog.System.{System, Action, step, run, empty, pick, unpick}
use bokkie.EventLog.Invariant.{Stored, Prunable, Inv, stored_last-Stored}
use bokkie.EventLog.Operations.{
  begin-Stored, begin-Open, emit-Open, finish-Stored, delete-Stored, finish-Prunable, pick-Prunable,
  unpick-Prunable,
}

latest-live : (r : ℕ) (log : UserLog) → 1 ≤ r → Stored r log → (latest log).1 ≡ length log.live
unfolding latest
latest-live r log h v = ground (arith, stored_last-Stored r log h v)

latest-Stored : (r : ℕ) (log : UserLog) → 1 ≤ r → Stored r log → Stored r (latest log).0
unfolding latest
latest-Stored r log h v = record {
  gone = v.gone;
  numbered = v.numbered;
  kept = v.kept;
  retained = v.retained;
  cached = inr (ground (arith, stored_last-Stored r log h v));
}

restart-Stored : (r : ℕ) (log : UserLog) → Stored r log → Stored r (record log { last = none })
restart-Stored r log v = record {
  gone = v.gone;
  numbered = v.numbered;
  kept = v.kept;
  retained = v.retained;
  cached = inl refl;
}

abbrev system : UserLog → Option Batch → List Seq → System
system log b us = record { log = log; batch = b; prunes = us }

prune_at :
    (r : ℕ) (log : UserLog) (us : List Seq) (i : ℕ) (ok : Bool)
    → Stored r log
    → All (Prunable r (length log.live)) us
    → Inv r (step r (system log none us) (Action.prunes i ok))
unfolding step
prune_at r log us i ok v h = elim (Option-cases (pick i us)) [
  | inl missing ↦ rw (missing, step) (record { stored = v; open_batch = tt; prunable = h })
  | inr (u, found) ↦ rw (found, step) (pruned u (pick-Prunable i us (length log.live) r found h) ok)
]
  where
    pruned :
        (u : Seq)
        → Prunable r (length log.live) u
        → (ok : Bool)
        → Inv r (
            if ok
            then system (record log { rows = delete_up_to u log.rows }) none (unpick i us)
            else system log none (unpick i us))
    pruned u p true = record {
      stored = delete-Stored r log u p v;
      open_batch = tt;
      prunable = unpick-Prunable i us (length log.live) r h;
    }
    pruned u p false = record {
      stored = v;
      open_batch = tt;
      prunable = unpick-Prunable i us (length log.live) r h;
    }

step_at :
    (r : ℕ) (log : UserLog) (us : List Seq) (b : Option Batch) (a : Action)
    → 1 ≤ r
    → Inv r (system log b us)
    → Inv r (step r (system log b us) a)
unfolding step
step_at r log us none (Action.begins ok) h v = record {
  stored = begin-Stored r log ok v.stored;
  open_batch = begin-Open r log ok h v.stored;
  prunable = v.prunable;
}
step_at r log us (some b) (Action.emits now ev ok) h v = record {
  stored = v.stored;
  open_batch = emit-Open r log b now ev ok v.stored v.open_batch;
  prunable = v.prunable;
}
step_at r log us (some b) (Action.commits ok) h v = record {
  stored = finish-Stored r log b ok v.stored v.open_batch;
  open_batch = tt;
  prunable = finish-Prunable r log b ok us v.open_batch v.prunable;
}
step_at r log us (some b) Action.drops h v = record {
  stored = v.stored;
  open_batch = tt;
  prunable = v.prunable;
}
step_at r log us none (Action.prunes i ok) h v = prune_at r log us i ok v.stored v.prunable
step_at r log us none Action.reads_latest h v = record {
  stored = latest-Stored r log h v.stored;
  open_batch = tt;
  prunable = v.prunable;
}
step_at r log us none Action.restarts h v = record {
  stored = restart-Stored r log v.stored;
  open_batch = tt;
  prunable = tt;
}
step_at r log us (some b) Action.restarts h v = record {
  stored = restart-Stored r log v.stored;
  open_batch = tt;
  prunable = tt;
}
step_at r log us _ _ h v = v

run-Inv : (r : ℕ) (s : System) (actions : List Action) → 1 ≤ r → Inv r s → Inv r (run r s actions)
unfolding run
run-Inv r s [] h v = v
run-Inv r s (a ∷ actions) h v =
    run-Inv r (step r s a) actions h (step_at r s.log s.prunes s.batch a h v)

empty-Inv : (r : ℕ) → Inv r empty
unfolding empty
empty-Inv r = record {
  stored = record { gone = 0; numbered = tt; kept = refl; retained = inl refl; cached = inl refl };
  open_batch = tt;
  prunable = tt;
}

-- Whatever becomes of a user's batches, statements, prunes and restarts, from an empty log on: the
-- events ever broadcast are numbered 1, 2, 3 and so on in the order of their broadcast; the rows of
-- the table are these events but the oldest, and none of the newest `retention` is missing; the
-- cached number is empty or that of the newest event; an open batch continues the numbering; and no
-- prune still to run reaches into the newest `retention`.
pub run-empty-Inv :
    (retention : ℕ) (actions : List Action)
    → Inv (with_retention retention) (run (with_retention retention) empty actions)
run-empty-Inv retention actions =
    run-Inv (with_retention retention) empty actions (omega arith)
      (empty-Inv (with_retention retention))

abbrev pub history : ℕ → List Action → UserLog
history retention actions = (run (with_retention retention) empty actions).log

-- After any history the last number that the gateway reads is that of the newest event broadcast,
-- from the cache or, after a restart or a batch that never committed, from the table.
pub latest-run :
    (retention : ℕ) (actions : List Action)
    → (latest (history retention actions)).1 ≡ length (history retention actions).live
latest-run retention actions =
    latest-live (with_retention retention) (history retention actions) (omega arith)
      (run-empty-Inv retention actions).stored
