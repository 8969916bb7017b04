-- ===== src/Routines/Rows.antt =====
-- The rows of crates/bokkie-gateway/src/routines/store.rs, and the tables that the routines' code
-- reads and writes. A statement succeeds unless it breaks a constraint that the model has; a batch
-- that fails leaves the tables as they were.
use bokkie.Prelude.{ℕ, Bool, Option, none, some, List, [], ◌∷◌, ◌++◌}
use bokkie.Maps.{Map}
use bokkie.Protocol.Routines.{
  Text, Timestamp, BotId, MessageId, RoutineId, RoutineRunId, Schedule, RoutinePush, Routine,
  RunTrigger, RunState, RoutineRun,
}
use bokkie.Protocol.Events.{Event}

abbrev pub UserId : Type 0
UserId = ℕ

pub record RoutineRow : Type 0 where
  pub id : RoutineId
  pub user : UserId
  pub bot : BotId
  pub name : Text
  pub prompt : Text
  pub schedule : Schedule
  pub push : RoutinePush
  pub paused : Bool
  pub failures : ℕ
  pub next_run_at : Option Timestamp
  pub created_at : Timestamp
  pub updated_at : Timestamp

-- `RoutineRow::to_api`.
unfoldable pub to_routine : RoutineRow → Routine
to_routine r = record {
  id = r.id;
  bot_id = r.bot;
  name = r.name;
  prompt = r.prompt;
  schedule = r.schedule;
  push = r.push;
  paused = r.paused;
  failures = r.failures;
  next_run_at = r.next_run_at;
  created_at = r.created_at;
  updated_at = r.updated_at;
}

pub data Waiting : Type 0 where
  busy signed_out : Waiting

pub record RunRow : Type 0 where
  pub id : RoutineRunId
  pub user : UserId
  pub bot : BotId
  pub routine : RoutineId
  pub trigger : RunTrigger
  pub scheduled_for : Timestamp
  pub queued_at : Timestamp
  pub started_at : Option Timestamp
  pub finished_at : Option Timestamp
  pub state : RunState
  pub reason : Option Text
  pub waiting_for : Option Waiting
  pub thread_id : Option Text
  pub turn_id : Option Text
  pub deadline_passed_at : Option Timestamp
  pub tokens : Option ℕ

-- `RunRow::to_api`.
unfoldable pub to_run : RunRow → List MessageId → RoutineRun
to_run r ids = record {
  id = r.id;
  routine_id = r.routine;
  bot_id = r.bot;
  trigger = r.trigger;
  scheduled_for = r.scheduled_for;
  started_at = r.started_at;
  finished_at = r.finished_at;
  state = r.state;
  reason = r.reason;
  messages = ids;
  tokens = r.tokens;
}

-- The columns that the routines' code reads of the other components' tables.
pub record Account : Type 0 where
  pub disabled : Bool
  pub time_zone : Text

pub record BotRow : Type 0 where
  pub owner : UserId
  pub refused : Bool

pub record MessageRow : Type 0 where
  pub id : MessageId
  pub user : UserId
  pub bot : BotId
  pub run : Option RoutineRunId
  pub turn : Option Text

pub record TokenRow : Type 0 where
  pub user : UserId
  pub turn : Option Text
  pub used : ℕ

-- What a batch gives to others: an event of the user's log, or a run's end to the pushes
-- (`push::run_ended`), with whether it paused its routine.
pub data Effect : Type 0 where
  emits : (user : UserId) → Event → Effect
  -- `Event::AccountUpdated`, whose body is the accounts' affair.
  account_updated : (user : UserId) → Effect
  run_ended : RunRow → RunState → (paused : Bool) → Effect

pub record Tables : Type 0 where
  pub accounts : Map Account
  pub bots : Map BotRow
  pub routines : Map RoutineRow
  pub runs : Map RunRow
  pub messages : List MessageRow
  pub tokens : List TokenRow
  pub effects : List Effect

pub data Failure : Type 0 where
  not_found unauthenticated invalid conflict : Failure

pub data Result (A : Type 0) : Type 0 where
  ok : A → Result A
  err : Failure → Result A

-- Code that reads and writes the tables, and may fail.
abbrev pub M : Type 0 → Type 0
M A = Tables → Result A × Tables

unfoldable pub pure : {A : Type 0} → A → M A
pure a t = (ok a, t)

unfoldable pub fail : {A : Type 0} → Failure → M A
fail e t = (err e, t)

infixl 5 ◌>>=◌ ◌>>◌
unfoldable pub ◌>>=◌ : {A B : Type 0} → M A → (A → M B) → M B
◌>>=◌ m f t = let (r, u) = m t in elim r [ ok a ↦ f a u | err e ↦ (err e, u) ]

abbrev pub ◌>>◌ : {B : Type 0} → M (Unit {0}) → M B → M B
m >> k = m >>= λ _. k

-- `EventLog::begin` to `commit`: a batch that fails is rolled back.
unfoldable pub batch : {A : Type 0} → M A → M A
batch m t = let (r, u) = m t in elim r [ ok a ↦ (ok a, u) | err e ↦ (err e, t) ]

-- What a query reads, which changes nothing.
unfoldable pub reads : {A : Type 0} → (Tables → A) → M A
reads f t = (ok (f t), t)

-- `ok_or_else`.
unfoldable pub require : {A : Type 0} → Failure → Option A → M A
unfolding fail pure
require e none = fail e
require e (some a) = pure a

unfoldable pub effect : Effect → M (Unit {0})
effect e t = (ok tt, record t { effects = t.effects ++ e ∷ [] })

abbrev pub emit : UserId → Event → M (Unit {0})
emit user e = effect (emits user e)
