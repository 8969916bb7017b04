-- ===== src/Routines/Changes.antt =====
-- crates/bokkie-gateway/src/routines/store.rs: the statements that change runs.
use bokkie.Prelude.{
  ◌+◌, Bool, true, false, not, ◌&&◌, ◌||◌, Option, none, some, leb, ltb, ◌==◌, if◌then◌else◌,
}
use bokkie.Maps.{get, insert, retain}
use bokkie.Protocol.Routines.{Text, Timestamp, RoutineId, RoutineRunId, RunTrigger, RunState}
use bokkie.Protocol.Routines.RunState.{running}
use bokkie.Protocol.Chars.{same}
use bokkie.Routines.Rows.{
  UserId, RoutineRow, RunRow, Waiting, Tables, M, ok, err, not_found, signed_out,
}
use bokkie.Routines.Rows.Waiting.{busy}
use bokkie.Routines.Reasons.{run_retention_ms}
use bokkie.Routines.Lookups.{
  is_waiting, is_running, is_finished, is_active, fresh, routine_of_user, tokens_of,
}

abbrev pub with_run : RoutineRunId → RunRow → Tables → Tables
with_run id r t = record t { runs = insert id r t.runs }

-- `NewRun`.
pub record NewRun : Type 0 where
  pub trigger : RunTrigger
  pub scheduled_for : Timestamp
  pub state : RunState
  pub reason : Option Text

-- The row selected has the routine's identifier, its owner and its Bot.
unfoldable pub queued : Timestamp → NewRun → RoutineRow → RoutineId → RoutineRunId → RunRow
unfolding is_finished
queued now new q routine id = record {
  id = id;
  user = q.user;
  bot = q.bot;
  routine = routine;
  trigger = new.trigger;
  scheduled_for = new.scheduled_for;
  queued_at = now;
  started_at = none;
  finished_at = if is_finished new.state then some now else none;
  state = new.state;
  reason = new.reason;
  waiting_for = none;
  thread_id = none;
  turn_id = none;
  deadline_passed_at = none;
  tokens = none;
}

unfoldable pub insert_run : Timestamp → RoutineRow → NewRun → M RunRow
unfolding routine_of_user queued fresh
insert_run now q new t = elim (routine_of_user q.user q.id t) [
  | none ↦ (err not_found, t)
  | some q' ↦ let r = queued now new q' q.id (fresh t.runs) in (ok r, with_run r.id r t)
]

-- `UPDATE routine_runs … WHERE id = ? AND user_id = ? AND … RETURNING`.
unfoldable pub update_run :
    UserId → RoutineRunId → (RunRow → Bool) → (RunRow → RunRow) → M (Option RunRow)
update_run user id guard f t = elim (get id t.runs) [
  | none ↦ (ok none, t)
  | some r ↦
      if (r.user == user) && guard r then (ok (some (f r)), with_run id (f r) t) else (ok none, t)
]

unfoldable pub waits_for : Waiting → Option Waiting → Bool
waits_for busy (some busy) = true
waits_for signed_out (some signed_out) = true
waits_for _ _ = false

unfoldable pub has_reason : Text → Option Text → Bool
unfolding same
has_reason a none = false
has_reason a (some b) = same a b

unfoldable pub set_waiting : UserId → RoutineRunId → Waiting → Text → M (Option RunRow)
set_waiting user id w reason =
    update_run user id
      (λ r.
        is_waiting r.state && (not (waits_for w r.waiting_for) || not (has_reason reason r.reason)))
      (λ r. record r { waiting_for = some w; reason = some reason })

unfoldable pub reschedule_waiting : UserId → RoutineRunId → Timestamp → M (Option RunRow)
reschedule_waiting user id at =
    update_run user id (λ r. is_waiting r.state && ltb r.scheduled_for at)
      (λ r. record r { scheduled_for = at })

unfoldable pub set_running :
    Timestamp → UserId → RoutineRunId → (thread turn : Text) → M (Option RunRow)
set_running now user id thread turn =
    update_run user id (λ r. is_waiting r.state)
      (λ r. record r {
        state = running;
        started_at = some now;
        thread_id = some thread;
        turn_id = some turn;
        waiting_for = none;
        reason = none;
      })

-- `finish_from`, from the states that `from` has.
unfoldable pub finish_from :
    (from : RunState → Bool)
    → Timestamp
    → UserId
    → RoutineRunId
    → RunState
    → Option Text
    → M (Option RunRow)
finish_from from now user id state reason t =
    update_run user id (λ r. from r.state)
      (λ r. record r {
        state = state;
        reason = reason;
        finished_at = some now;
        waiting_for = none;
        tokens = tokens_of r.user r.turn_id t.tokens;
      })
      t

unfoldable pub finish :
    Timestamp → UserId → RoutineRunId → RunState → Option Text → M (Option RunRow)
finish = finish_from is_active

unfoldable pub finish_waiting :
    Timestamp → UserId → RoutineRunId → RunState → Option Text → M (Option RunRow)
finish_waiting = finish_from is_waiting

unfoldable pub set_deadline_passed : Timestamp → UserId → RoutineRunId → M (Option RunRow)
set_deadline_passed now user id =
    update_run user id
      (λ r. is_running r.state && elim r.deadline_passed_at [ none ↦ true | some _ ↦ false ])
      (λ r. record r { deadline_passed_at = some now })

-- `prune`: runs that ended go 90 days after they were queued. A time before 1970 is none.
unfoldable pub prune : Timestamp → Tables → Tables
unfolding is_finished
prune now t = record t {
  runs =
      retain (λ _ r. not (leb (r.queued_at + run_retention_ms) now && is_finished r.state)) t.runs;
}
