-- ===== src/Routines/Starts.antt =====
-- How a waiting run starts: `start_routine` of crates/bokkie-gateway/src/bots/service.rs, and
-- `attempt` of routines/mod.rs. Of `start_routine` the model has what it checks and how it marks the
-- run running; what the Bot's lock, the allowance, the app server, the marker and the turn answer
-- is given.
use bokkie.Prelude.{Bool, true, false, ◌&&◌, Option, none, some, if◌then◌else◌}
use bokkie.Maps.{get}
use bokkie.Protocol.Routines.{Text, Timestamp, RoutineId, RoutineRunId, RunTrigger, RunState}
use bokkie.Protocol.Routines.RunState.{missed, skipped}
use bokkie.Routines.Rows.{
  UserId, RoutineRow, RunRow, BotRow, Account, Waiting, Failure, M, pure, reads, batch, ok, err,
  ◌>>=◌, ◌>>◌,
}
use bokkie.Routines.Reasons
use bokkie.Routines.Lookups.{is_waiting, run, routine_of_user, bot_of}
use bokkie.Routines.Changes.{set_running}
use bokkie.Routines.Runs.{TurnStatus, end_turn}
use bokkie.Routines.Scheduler.{past, reached, emit_moved, end_unstarted, wait}

pub data RoutineStart : Type 0 where
  started : (turn_id : Text) → RoutineStart
  busy signed_out paused not_waiting : RoutineStart
  failed : (reason : Text) → RoutineStart

pub data Runtime : Type 0 where
  ready signed_out : Runtime
  unavailable : (message : Text) → Runtime

-- Preparing the thread, recording the marker and beginning the turn.
pub data Begun : Type 0 where
  begun : (thread turn : Text) → Begun
  failed : (message : Text) → Begun

-- What the rest of the gateway answers during one attempt.
pub record Outside : Type 0 where
  pub send_locked : Bool
  pub working : Bool
  pub used_up : Bool
  pub runtime : Runtime
  -- Whether a turn could be counted against the allowance.
  pub reserved : Bool
  pub turn : Begun
  pub started_at : Timestamp
  -- How the turn ended, if it has.
  pub turn_end : Option TurnStatus
  -- The texts of the refusals.
  pub no_bot : Text
  pub refused : Text
  pub limit_reached : Text
  -- `Failure::message`.
  pub message : Failure → Text

unfoldable pub end_begun : Timestamp → UserId → Text → Option TurnStatus → M (Unit {0})
end_begun now user turn none = pure tt
end_begun now user turn (some status) = end_turn now user turn status false

-- From `begin_turn` on: the run is running, unless it ended meanwhile, and if its turn already
-- ended, so does the run.
unfoldable pub mark_running :
    Timestamp → UserId → RunRow → (thread turn : Text) → Option TurnStatus → M (Unit {0})
mark_running now user r thread turn status = batch do
  running ← set_running now user r.id thread turn
  emit_moved running
  end_begun now user turn status

unfoldable pub with_turn : Outside → UserId → RunRow → Begun → M RoutineStart
with_turn o user r (failed message) = pure (failed message)
with_turn o user r (begun thread turn) = do
  mark_running o.started_at user r thread turn o.turn_end
  pure (started turn)

unfoldable pub begin_turn : Outside → UserId → RunRow → Runtime → M RoutineStart
begin_turn o user r signed_out = pure signed_out
begin_turn o user r (unavailable message) = pure (failed message)
begin_turn o user r ready =
    if o.reserved then with_turn o user r o.turn else pure (failed o.limit_reached)

unfoldable pub with_bot : Outside → UserId → RunRow → Option BotRow → M RoutineStart
with_bot o user r none = pure (failed o.no_bot)
with_bot o user r (some bot) =
    if bot.refused
    then pure (failed o.refused)
    else if o.working
    then pure busy
    else if o.used_up
    then pure (failed o.limit_reached)
    else begin_turn o user r o.runtime

unfoldable pub is_schedule : RunTrigger → Bool
is_schedule RunTrigger.schedule = true
is_schedule RunTrigger.manual = false

unfoldable pub with_routine_read : Outside → UserId → RunRow → Option RoutineRow → M RoutineStart
with_routine_read o user r none = pure not_waiting
with_routine_read o user r (some q) =
    if q.paused && is_schedule r.trigger
    then pure paused
    else (reads (bot_of user q.bot) >>= with_bot o user r)

unfoldable pub with_run_read : Outside → UserId → RoutineId → Option RunRow → M RoutineStart
with_run_read o user id none = pure not_waiting
with_run_read o user id (some r) =
    if is_waiting r.state
    then (reads (routine_of_user user id) >>= with_routine_read o user r)
    else pure not_waiting

-- A failure on the way is why the run failed to start.
unfoldable pub caught : Outside → M RoutineStart → M RoutineStart
caught o m t =
    let (r, u) = m t in elim r [ ok s ↦ (ok s, u) | err e ↦ (ok (failed (o.message e)), u) ]

unfoldable pub start_routine : Outside → UserId → RoutineId → RoutineRunId → M RoutineStart
start_routine o user routine id =
    if o.send_locked
    then pure busy
    else caught o (reads (run user id) >>= with_run_read o user routine)

-- The end of `attempt`: what becomes of a run that did not start. It says whether the run waits for
-- its Bot.
unfoldable pub after_start : Timestamp → RunRow → RoutineStart → M Bool
after_start now r (started _) = pure false
after_start now r not_waiting = pure false
after_start now r paused = end_unstarted now r skipped (some Reasons.paused) >> pure false
after_start now r busy =
    if reached Reasons.busy_wait_ms r.queued_at now
    then end_unstarted now r skipped (some Reasons.busy) >> pure false
    else wait r Waiting.busy Reasons.waiting_busy >> pure true
after_start now r signed_out =
    if past Reasons.misfire_window_ms r.scheduled_for now
    then end_unstarted now r missed (some Reasons.signed_out) >> pure false
    else wait r Waiting.signed_out Reasons.waiting_signed_out >> pure false
after_start now r (failed reason) = end_unstarted now r RunState.failed (some reason) >> pure false

unfoldable pub attempt_for : Timestamp → Outside → RunRow → Option RoutineRow → M Bool
attempt_for now o r none = pure false
attempt_for now o r (some q) = start_routine o r.user q.id r.id >>= after_start now r

unfoldable pub attempt_of : Timestamp → Outside → RunRow → Option Account → M Bool
attempt_of now o r none = pure false
attempt_of now o r (some account) =
    if account.disabled
    then end_unstarted now r missed (some Reasons.disabled) >> pure false
    else (reads (routine_of_user r.user r.routine) >>= attempt_for now o r)

-- `attempt` of a run as it was once read.
unfoldable pub attempt : Timestamp → Outside → RunRow → M Bool
attempt now o r = reads (λ t. get r.user t.accounts) >>= attempt_of now o r
