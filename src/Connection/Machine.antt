-- ===== src/Connection/Machine.antt =====
-- connection.rs: the machine's states, inputs, commands and record. Durations are milliseconds. `u32` counters wrap or saturate as the source says.
use bokkie.Prelude.{ℕ, ◌+◌, ◌%◌, min, Bool, true, false, Option, none, some, ◌==◌}
use bokkie.Protocol.Routines.{BotId}
use bokkie.Protocol.Events.{Seq, EventEnvelope, ClientFrame, ServerFrame, viewing_renew_ms}

abbrev pub first_retry : ℕ
first_retry = 250

abbrev pub last_retry : ℕ
last_retry = 8000

abbrev pub close_signed_out : ℕ
close_signed_out = 4002

abbrev pub close_protocol : ℕ
close_protocol = 4000

abbrev pub pong_deadline : ℕ
pong_deadline = 5000

abbrev pub unreadable_limit : ℕ
unreadable_limit = 3

abbrev pub viewing_renew : ℕ
viewing_renew = viewing_renew_ms

pub data State : Type 0 where
  stopped connecting resuming replaying live : State
  backing_off : (attempt : ℕ) (delay : ℕ) → State
  signed_out outdated : State

pub data Input : Type 0 where
  start opened : Input
  frame : ServerFrame → Input
  unreadable : Input
  closed : (code : Option ℕ) → Input
  retry_due visible hidden : Input
  viewing : Option BotId → Input
  viewing_due : (renewal : ℕ) → Input
  pong_overdue : (ping : ℕ) → Input
  unauthenticated stop : Input

pub data Command : Type 0 where
  connect : Command
  send : ClientFrame → Command
  close : Command
  retry_after : (delay : ℕ) → Command
  cancel_retry : Command
  await_pong : (ping : ℕ) (after : ℕ) → Command
  renew_viewing : (renewal : ℕ) (after : ℕ) → Command
  apply : EventEnvelope → Command
  reload check_session signed_out outdated : Command

pub record Connection : Type 0 where
  pub state : State
  pub failures : ℕ
  pub last : Option Seq
  pub synced : Bool
  pub pings : ℕ
  pub awaiting : Option ℕ
  pub unreadable : ℕ
  pub refusals : ℕ
  pub viewing : Option BotId
  pub hidden : Bool
  pub told : Option BotId
  pub renewals : ℕ

abbrev pub u32_max : ℕ
u32_max = 4294967295

-- `u32::wrapping_add(1)` and `u32::saturating_add(1)`.
abbrev pub wrapping_suc : ℕ → ℕ
wrapping_suc n = (n + 1) % (u32_max + 1)

abbrev pub saturating_suc : ℕ → ℕ
saturating_suc n = min (n + 1) u32_max

-- `Connection::new`.
unfoldable pub new : Connection
new = record {
  state = State.stopped;
  failures = 0;
  last = none;
  synced = false;
  pings = 0;
  awaiting = none;
  unreadable = 0;
  refusals = 0;
  viewing = none;
  hidden = false;
  told = none;
  renewals = 0;
}

-- Equality of optional numbers.
abbrev pub same : Option ℕ → Option ℕ → Bool
same none none = true
same none (some b) = false
same (some a) none = false
same (some a) (some b) = a == b

abbrev pub is_some {ℓ} : {A : Type ℓ} → Option A → Bool
is_some none = false
is_some (some a) = true

abbrev pub is_live : State → Bool
is_live State.live = true
is_live _ = false

abbrev pub is_signed_out : State → Bool
is_signed_out State.signed_out = true
is_signed_out _ = false
