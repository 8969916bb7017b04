-- ===== src/Routines/Runs.antt =====
-- crates/bokkie-gateway/src/routines/mod.rs: how runs end, within a batch.
use bokkie.Prelude.{Bool, true, false, Option, none, some, List, [], ◌∷◌, if◌then◌else◌}
use bokkie.Maps.{get}
use bokkie.Protocol.Routines.{Text, Timestamp, BotId, RunState}
use bokkie.Protocol.Routines.RunState.{succeeded}
use bokkie.Protocol.Events.Event.{routine_updated, routine_run_updated}
use bokkie.Routines.Rows.{
  UserId, RoutineRow, RunRow, Tables, M, pure, reads, effect, emit, to_routine, to_run, ◌>>=◌, ◌>>◌,
  run_ended,
}
use bokkie.Routines.Reasons
use bokkie.Routines.Lookups.{run_messages, run_of_turn, running_runs_of, is_running}
use bokkie.Routines.RoutineChanges.{count_outcome}
use bokkie.Routines.Changes.{finish, finish_waiting}

-- `bokkie_codex::protocol::TurnStatus`.
pub data TurnStatus : Type 0 where
  completed in_progress interrupted failed : TurnStatus

unfoldable pub emit_run : RunRow → M (Unit {0})
emit_run r = do ids ← reads (run_messages r); emit r.user (routine_run_updated (to_run r ids))

-- Whether an end counts as a failure, as a success or as neither.
unfoldable pub outcome : RunRow → RunState → Option Bool
outcome ended RunState.failed = some true
outcome ended RunState.interrupted = elim ended.deadline_passed_at [
  | none ↦ none
  | some _ ↦ some true
]
outcome ended succeeded = some false
outcome ended _ = none

unfoldable pub announce_counted : UserId → Option (RoutineRow × Bool) → M Bool
announce_counted user none = pure false
announce_counted user (some (q, paused)) = do
  emit user (routine_updated (to_routine q))
  pure paused

unfoldable pub count_end : Timestamp → RunRow → Option Bool → M Bool
count_end now ended none = pure false
count_end now ended (some is_bad) = do
  counted ← count_outcome now ended is_bad
  announce_counted ended.user counted

unfoldable pub announce_end : Timestamp → RunRow → RunState → M (Unit {0})
announce_end now ended state = do
  emit_run ended
  paused ← count_end now ended (outcome ended state)
  effect (run_ended ended state paused)

unfoldable pub announce_ended : Timestamp → RunState → Option RunRow → M (Option RunRow)
announce_ended now state none = pure none
announce_ended now state (some ended) = do announce_end now ended state; pure (some ended)

unfoldable pub end_run : Timestamp → RunRow → RunState → Option Text → M (Option RunRow)
end_run now r state reason = do
  ended ← finish now r.user r.id state reason
  announce_ended now state ended

unfoldable pub end_waiting : Timestamp → RunRow → RunState → Option Text → M (Option RunRow)
end_waiting now r state reason = do
  ended ← finish_waiting now r.user r.id state reason
  announce_ended now state ended

unfoldable pub turn_outcome : RunRow → TurnStatus → Bool → RunState × Option Text
turn_outcome r TurnStatus.completed out = (succeeded, none)
turn_outcome r TurnStatus.in_progress out = (succeeded, none)
turn_outcome r TurnStatus.interrupted out = elim r.deadline_passed_at [
  | some _ ↦ (RunState.interrupted, some Reasons.deadline)
  | none ↦
      if out
      then (RunState.interrupted, some Reasons.out_of_tokens)
      else (RunState.interrupted, some Reasons.stopped)
]
turn_outcome r TurnStatus.failed out = (RunState.failed, some Reasons.turn_failed)

unfoldable pub end_run_of_turn : Timestamp → TurnStatus → Bool → Option RunRow → M (Unit {0})
end_run_of_turn now status out none = pure tt
end_run_of_turn now status out (some r) =
    let (state, reason) = turn_outcome r status out in
    if is_running r.state then (end_run now r state reason >>= λ _. pure tt) else pure tt

unfoldable pub end_turn : Timestamp → UserId → Text → TurnStatus → Bool → M (Unit {0})
end_turn now user turn status out = do
  r ← reads (run_of_turn user turn)
  end_run_of_turn now status out r

unfoldable pub end_all : Timestamp → RunState → Text → List RunRow → M (Unit {0})
end_all now state reason [] = pure tt
end_all now state reason (r ∷ rs) = do
  _ ← end_run now r state (some reason)
  end_all now state reason rs

-- Whether the user's account is there and disabled.
unfoldable pub is_disabled : UserId → Tables → Bool
is_disabled user t = elim (get user t.accounts) [ none ↦ false | some a ↦ a.disabled ]

unfoldable pub end_running : Timestamp → UserId → Option BotId → RunState → Text → M (Unit {0})
end_running now user bot state reason = do
  disabled ← reads (is_disabled user)
  rs ← reads (running_runs_of user bot)
  end_all now state (if disabled then Reasons.disabled else reason) rs
