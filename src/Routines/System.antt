-- ===== src/Routines/System.antt =====
-- The routines' batches of crates/bokkie-gateway/src/routines/mod.rs as steps on the tables, in any
-- order: a batch holds its user's lock, and between two of them anything else may happen. What a
-- task read before may be out of date, so a step's rows are any rows.
use bokkie.Prelude.{Bool, true, false, Option, some, List, [], ◌∷◌}
use bokkie.Maps.{Map}
use bokkie.Protocol.Routines.{Text, Timestamp, BotId, RoutineId}
use bokkie.Protocol.Routines.RunState.{failed, skipped, missed}
use bokkie.Schedule.Zones.{Database}
use bokkie.Routines.Rows.{
  UserId, RunRow, Waiting, Tables, Account, BotRow, MessageRow, TokenRow, Effect, M, batch,
}
use bokkie.Routines.Changes.{prune}
use bokkie.Routines.Runs.{TurnStatus, end_turn, end_running}
use bokkie.Routines.Edits.{
  CreateRoutineRequest, UpdateRoutineRequest, create_in, update_in, delete_in, run_now,
  set_time_zone,
}
use bokkie.Routines.Scheduler.{fall_due, recover, enforce_deadline, wait, end_unstarted}
use bokkie.Routines.Starts.{Outside, attempt, mark_running}

pub data Action : Type 0 where
  creates : Timestamp → UserId → BotId → CreateRoutineRequest → Action
  updates : Timestamp → UserId → BotId → RoutineId → UpdateRoutineRequest → Action
  deletes : UserId → BotId → RoutineId → Action
  runs_now : Timestamp → UserId → BotId → RoutineId → Action
  sets_time_zone : Timestamp → UserId → Text → Action
  falls_due : Timestamp → UserId → RoutineId → Action
  attempts : Timestamp → Outside → RunRow → Action
  -- The batches of an attempt one by one, as other steps come between them.
  begins : Timestamp → UserId → RunRow → (thread turn : Text) → Option TurnStatus → Action
  waits : RunRow → Waiting → Text → Action
  skips misses fails : Timestamp → RunRow → (reason : Text) → Action
  enforces : Timestamp → RunRow → Action
  recovers : Timestamp → Action
  turn_ends : Timestamp → UserId → Text → TurnStatus → (out_of_tokens : Bool) → Action
  -- An app server stops, or a Bot is refused: `end_running`, in the state `Failed`.
  server_stops : Timestamp → UserId → Option BotId → Text → Action
  prunes : Timestamp → Action
  -- The rest of the gateway changes its own tables, and takes up the effects.
  others : Map Account → Map BotRow → List MessageRow → List TokenRow → List Effect → Action

-- What the code leaves of the tables.
abbrev pub left : {A : Type 0} → M A → Tables → Tables
left m t = (m t).1

unfoldable pub act : Database → Action → Tables → Tables
act db (Action.creates now user bot request) = left (batch (create_in db now user bot request))
act db (Action.updates now user bot id request) =
    left (batch (update_in db now user bot id request))
act db (Action.deletes user bot id) = left (batch (delete_in user bot id))
act db (Action.runs_now now user bot id) = left (run_now now user bot id)
act db (Action.sets_time_zone now user name) = left (set_time_zone db now user name)
act db (Action.falls_due now user id) = left (fall_due db now user id)
act db (Action.attempts now o r) = left (attempt now o r)
act db (Action.begins now user r thread turn status) =
    left (mark_running now user r thread turn status)
act db (Action.waits r w reason) = left (wait r w reason)
act db (Action.skips now r reason) = left (end_unstarted now r skipped (some reason))
act db (Action.misses now r reason) = left (end_unstarted now r missed (some reason))
act db (Action.fails now r reason) = left (end_unstarted now r failed (some reason))
act db (Action.enforces now r) = left (enforce_deadline now r)
act db (Action.recovers now) = left (recover now)
act db (Action.turn_ends now user turn status out) =
    left (batch (end_turn now user turn status out))
act db (Action.server_stops now user bot reason) =
    left (batch (end_running now user bot failed reason))
act db (Action.prunes now) = prune now
act db (Action.others accounts bots messages tokens effects) = λ t. record t {
  accounts = accounts;
  bots = bots;
  messages = messages;
  tokens = tokens;
  effects = effects;
}

unfoldable pub run_all : Database → List Action → Tables → Tables
run_all db [] t = t
run_all db (a ∷ more) t = run_all db more (act db a t)

-- Whether the action may remove runs.
unfoldable pub removes : Action → Bool
removes (Action.deletes user bot id) = true
removes (Action.prunes now) = true
removes _ = false

unfoldable pub empty : Tables
empty = record {
  accounts = [];
  bots = [];
  routines = [];
  runs = [];
  messages = [];
  tokens = [];
  effects = [];
}
