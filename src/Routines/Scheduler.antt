-- ===== src/Routines/Scheduler.antt =====
-- crates/bokkie-gateway/src/routines/mod.rs: the scheduler's batches, each under its user's lock.
use bokkie.Prelude.{
  ℕ, ◌+◌, Bool, false, not, ◌&&◌, Option, none, some, List, [], ◌∷◌, leb, ltb, if◌then◌else◌,
}
use bokkie.Maps.{get}
use bokkie.Protocol.Routines.{Text, Timestamp, RoutineId, RunTrigger, RunState}
use bokkie.Protocol.Routines.RunState.{waiting, missed, skipped, failed, interrupted}
use bokkie.Protocol.Events.Event.{routine_updated}
use bokkie.Schedule.{next_after, latest_at_or_before}
use bokkie.Schedule.Zones.{Database, stored_zone}
use bokkie.Routines.Rows.{
  UserId, RoutineRow, RunRow, Account, Waiting, M, pure, reads, require, batch, effect, emit,
  to_routine, ◌>>=◌, ◌>>◌, unauthenticated, run_ended,
}
use bokkie.Routines.Reasons
use bokkie.Routines.Lookups.{is_waiting, is_running, routine_of_user, active_run, active_runs, run}
use bokkie.Routines.RoutineChanges.{save}
use bokkie.Routines.Changes.{
  insert_run, set_waiting, reschedule_waiting, set_deadline_passed, NewRun,
}
use bokkie.Routines.Runs.{emit_run, end_run, end_waiting}

-- What `queue` makes of a run: it joins the run that is waiting, or is recorded in a state.
pub data Queued : Type 0 where
  joins : RunRow → Queued
  records : RunState → Option Text → Queued

-- `now - since > limit`, on signed numbers.
abbrev pub past : (limit : ℕ) → (since now : Timestamp) → Bool
past limit since now = ltb (since + limit) now

-- `now - since >= limit`.
abbrev pub reached : (limit : ℕ) → (since now : Timestamp) → Bool
reached limit since now = leb (since + limit) now

unfoldable pub place : Option RunRow → Queued
place none = records waiting none
place (some active) =
    if is_waiting active.state then joins active else records skipped (some Reasons.overlap)

unfoldable pub decide : Timestamp → Account → (scheduled_for : Timestamp) → Option RunRow → Queued
decide now account scheduled_for active =
    if account.disabled
    then records missed (some Reasons.disabled)
    else if past Reasons.misfire_window_ms scheduled_for now
    then records missed (some Reasons.down)
    else place active

unfoldable pub emit_moved : Option RunRow → M (Unit {0})
emit_moved none = pure tt
emit_moved (some r) = emit_run r

unfoldable pub end_missed : RunRow → RunState → M (Unit {0})
end_missed r missed = effect (run_ended r missed false)
end_missed r _ = pure tt

-- The waiting run stands for a scheduled one too, due when that is.
unfoldable pub join :
    RoutineRow → RunTrigger → (scheduled_for : Timestamp) → RunRow → M (Option RunRow)
join q RunTrigger.manual at active = pure none
join q RunTrigger.schedule at active = do
  moved ← reschedule_waiting q.user active.id at
  emit_moved moved
  pure none

unfoldable pub record_run : Timestamp → RoutineRow → NewRun → M (Option RunRow)
record_run now q new = do
  r ← insert_run now q new
  emit_run r
  end_missed r new.state
  pure (some r)

unfoldable pub enqueue :
    Timestamp → RoutineRow → RunTrigger → (scheduled_for : Timestamp) → Queued → M (Option RunRow)
enqueue now q trigger at (joins active) = join q trigger at active
enqueue now q trigger at (records state reason) =
    record_run now q
      (record { trigger = trigger; scheduled_for = at; state = state; reason = reason })

unfoldable pub queue :
    Timestamp → Account → RoutineRow → RunTrigger → (scheduled_for : Timestamp) → M (Option RunRow)
queue now account q trigger at = do
  active ← reads (active_run q.user q.id)
  enqueue now q trigger at (decide now account at active)

unfoldable pub own_account : UserId → M Account
own_account user = do account ← reads (λ t. get user t.accounts); require unauthenticated account

-- The latest time due, if it is not before the one that was stored.
unfoldable pub coalesced : Timestamp → Option Timestamp → Timestamp
coalesced next_run_at none = next_run_at
coalesced next_run_at (some latest) = if leb next_run_at latest then latest else next_run_at

unfoldable pub run_due :
    Database → Timestamp → RoutineRow → (next_run_at : Timestamp) → M (Unit {0})
run_due db now q next_run_at = do
  account ← own_account q.user
  let z = stored_zone db account.time_zone
  let latest = coalesced next_run_at (latest_at_or_before z q.schedule now)
  q' ← save now (record q { next_run_at = next_after z q.schedule now })
  emit q'.user (routine_updated (to_routine q'))
  _ ← queue now account q' RunTrigger.schedule latest
  pure tt

unfoldable pub run_if_due : Database → Timestamp → RoutineRow → Option Timestamp → M (Unit {0})
run_if_due db now q none = pure tt
run_if_due db now q (some at) = if leb at now && not q.paused then run_due db now q at else pure tt

unfoldable pub fall_due_now : Database → Timestamp → Option RoutineRow → M (Unit {0})
fall_due_now db now none = pure tt
fall_due_now db now (some q) = run_if_due db now q q.next_run_at

-- `fall_due` of a routine found due before, which is read again.
unfoldable pub fall_due : Database → Timestamp → UserId → RoutineId → M (Unit {0})
fall_due db now user id = batch do q ← reads (routine_of_user user id); fall_due_now db now q

-- The loop of `recover`: each run in a batch of its own.
unfoldable pub recover_all : Timestamp → List RunRow → M (Unit {0})
recover_all now [] = pure tt
recover_all now (r ∷ rs) = do
  _ ← batch (end_run now r failed (some Reasons.restarted))
  recover_all now rs

unfoldable pub recover : Timestamp → M (Unit {0})
recover now = do rs ← reads (active_runs is_running); recover_all now rs

unfoldable pub end_current : Timestamp → RunState → Option Text → Option RunRow → M (Unit {0})
end_current now state reason none = pure tt
end_current now state reason (some r) = do _ ← end_run now r state reason; pure tt

-- `end`, which reads the run again.
unfoldable pub end : Timestamp → RunRow → RunState → Option Text → M (Unit {0})
end now r state reason =
    batch do current ← reads (run r.user r.id); end_current now state reason current

unfoldable pub end_unstarted : Timestamp → RunRow → RunState → Option Text → M (Unit {0})
end_unstarted now r state reason = batch do _ ← end_waiting now r state reason; pure tt

unfoldable pub wait : RunRow → Waiting → Text → M (Unit {0})
wait r w reason = batch do changed ← set_waiting r.user r.id w reason; emit_moved changed

-- `enforce_deadline` of a run that started, by when its turn was interrupted. The interruption
-- that it asks Codex for changes no table.
unfoldable pub enforce_since :
    Timestamp → RunRow → (started : Timestamp) → Option Timestamp → M (Unit {0})
enforce_since now r started none =
    if reached Reasons.run_deadline_ms started now
    then (set_deadline_passed now r.user r.id >>= λ _. pure tt)
    else pure tt
enforce_since now r started (some asked) =
    if reached Reasons.interrupt_grace_ms asked now
    then end now r interrupted (some Reasons.deadline)
    else pure tt

unfoldable pub enforce_started : Timestamp → RunRow → Option Timestamp → M (Unit {0})
enforce_started now r none = pure tt
enforce_started now r (some started) = enforce_since now r started r.deadline_passed_at

unfoldable pub enforce_deadline : Timestamp → RunRow → M (Unit {0})
enforce_deadline now r = enforce_started now r r.started_at
