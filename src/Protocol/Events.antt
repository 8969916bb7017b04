-- ===== src/Protocol/Events.antt =====
-- crates/bokkie-protocol/src/events.rs: the event log's entries and the frames of the socket.
-- A sequence number is a `u64` that grows by one for each event; the model leaves it unbounded.
use bokkie.Prelude.{ℕ, suc, Option}
use bokkie.Protocol.Routines.{Text, Timestamp, BotId, MessageId, RoutineId, Routine, RoutineRun}
use bokkie.Protocol.Api.{Bot, BotStatus, Message, Usage, User, ReadState}

abbrev pub Seq : Type 0
Seq = ℕ

-- `Seq::next`.
abbrev pub next : Seq → Seq
next s = suc s

pub data Event : Type 0 where
  bot_created : Bot → Event
  bot_updated : Bot → Event
  bot_status_changed : BotId → BotStatus → Event
  message_created : Message → Event
  message_delta : (bot_id : BotId) (message_id : MessageId) (offset : ℕ) (delta : Text) → Event
  message_completed : Message → Event
  usage_updated : Usage → Event
  bot_error : (bot_id : BotId) (message : Text) → Event
  account_updated : User → Event
  routine_created : Routine → Event
  routine_updated : Routine → Event
  routine_deleted : (bot_id : BotId) (routine_id : RoutineId) → Event
  routine_run_updated : RoutineRun → Event
  read_updated : ReadState → Event

pub record EventEnvelope : Type 0 where
  pub seq : Seq
  pub at : Timestamp
  pub event : Event

pub data ClientFrame : Type 0 where
  resume : (after : Option Seq) → ClientFrame
  ping : ClientFrame
  viewing : (bot_id : Option BotId) → ClientFrame

pub data ServerFrame : Type 0 where
  reset : (after : Seq) → ServerFrame
  event : EventEnvelope → ServerFrame
  live : (latest : Seq) → ServerFrame
  pong : ServerFrame

-- `VIEWING_RENEW_MS` and `VIEWING_EXPIRES_MS`.
abbrev pub viewing_renew_ms : ℕ
viewing_renew_ms = 30000

abbrev pub viewing_expires_ms : ℕ
viewing_expires_ms = 75000
