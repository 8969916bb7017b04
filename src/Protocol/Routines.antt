-- ===== src/Protocol/Routines.antt =====
-- crates/bokkie-protocol/src/api.rs, the routines: schedules and runs. Identifiers are row
-- identifiers and times are milliseconds since 1970, both numbers; a string is a list of its
-- Unicode scalar values.
use bokkie.Prelude.{ℕ, Bool, Option, List, ℕ_discrete}

abbrev pub Text : Type 0
Text = List ℕ

abbrev pub Timestamp : Type 0
Timestamp = ℕ

abbrev pub BotId : Type 0
BotId = ℕ

abbrev pub MessageId : Type 0
MessageId = ℕ

abbrev pub RoutineId : Type 0
RoutineId = ℕ

abbrev pub RoutineRunId : Type 0
RoutineRunId = ℕ

pub data Weekday : Type 0 where
  mon tue wed thu fri sat sun : Weekday

pub record TimeOfDay : Type 0 where
  pub hour : ℕ
  pub minute : ℕ

pub data Schedule : Type 0 where
  daily : TimeOfDay → Schedule
  weekdays : TimeOfDay → Schedule
  days : List Weekday → TimeOfDay → Schedule
  hours : ℕ → TimeOfDay → Schedule

pub data RoutinePush : Type 0 where
  every_run notify_only : RoutinePush

pub record Routine : Type 0 where
  pub id : RoutineId
  pub bot_id : BotId
  pub name : Text
  pub prompt : Text
  pub schedule : Schedule
  pub push : RoutinePush
  pub paused : Bool
  pub failures : ℕ
  pub next_run_at : Option Timestamp
  pub created_at : Timestamp
  pub updated_at : Timestamp

pub data RunTrigger : Type 0 where
  schedule manual : RunTrigger

pub data RunState : Type 0 where
  waiting running succeeded failed missed skipped interrupted : RunState

pub record RoutineRun : Type 0 where
  pub id : RoutineRunId
  pub routine_id : RoutineId
  pub bot_id : BotId
  pub trigger : RunTrigger
  pub scheduled_for : Timestamp
  pub started_at : Option Timestamp
  pub finished_at : Option Timestamp
  pub state : RunState
  pub reason : Option Text
  pub messages : List MessageId
  pub tokens : Option ℕ

unfoldable pub Weekday-discrete : Discrete Weekday
Weekday-discrete = hlevel

unfoldable pub TimeOfDay-discrete : Discrete TimeOfDay
TimeOfDay-discrete = hlevel ℕ_discrete

unfoldable pub Schedule-discrete : Discrete Schedule
Schedule-discrete = hlevel (TimeOfDay-discrete, Weekday-discrete, ℕ_discrete)

unfoldable pub RoutinePush-discrete : Discrete RoutinePush
RoutinePush-discrete = hlevel

unfoldable pub Routine-discrete : Discrete Routine
Routine-discrete = hlevel (Schedule-discrete, RoutinePush-discrete, ℕ_discrete)
