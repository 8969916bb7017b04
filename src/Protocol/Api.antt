-- ===== src/Protocol/Api.antt =====
-- crates/bokkie-protocol/src/api.rs: accounts, Bots, messages and the usage meter.
use bokkie.Prelude.{ℕ, Bool, true, Option, none, some, List, ◌&&◌, ltb, ℕ_discrete}
use bokkie.Prelude.Int.{ℤ}
use bokkie.Protocol.Routines.{Text, Timestamp, BotId, MessageId, RoutineId, RoutineRunId}

abbrev pub UserId : Type 0
UserId = ℕ

pub data Role : Type 0 where
  admin member : Role

pub record Permissions : Type 0 where
  pub may_create_bots : Bool
  pub may_edit_bot_profiles : Bool

pub record User : Type 0 where
  pub id : UserId
  pub username : Text
  pub display_name : Text
  pub role : Role
  pub disabled : Bool
  pub created_at : Timestamp
  pub permissions : Permissions
  pub oversight : Bool
  pub oversight_changed_at : Option Timestamp
  pub time_zone : Text

pub record Limits : Type 0 where
  pub daily_turns : Option ℕ
  pub weekly_tokens : Option ℕ

pub data Grant : Type 0 where
  notes seen notify web_search web_fetch : Grant

pub data BotStatus : Type 0 where
  idle working refused : BotStatus

pub data Author : Type 0 where
  user bot : Author

pub record MessagePreview : Type 0 where
  pub author : Author
  pub text : Text
  pub at : Timestamp

pub record Bot : Type 0 where
  pub id : BotId
  pub name : Text
  pub label : Text
  pub description : Text
  pub avatar : Option Text
  pub pinned : Bool
  pub hidden : Bool
  pub status : BotStatus
  pub created_at : Timestamp
  pub updated_at : Timestamp
  pub last_message : Option MessagePreview
  pub grants : List Grant
  pub read_up_to : Option MessageId
  pub unread : Bool

pub data MessageState : Type 0 where
  streaming complete interrupted failed : MessageState

pub data MessageKind : Type 0 where
  text marker : MessageKind

pub record MessageRoutine : Type 0 where
  pub routine_id : RoutineId
  pub run_id : RoutineRunId
  pub prompt : Text

pub data NotificationKind : Type 0 where
  result question : NotificationKind

pub record MessageNotification : Type 0 where
  pub kind : NotificationKind
  pub body : Text

pub record Message : Type 0 where
  pub id : MessageId
  pub bot_id : BotId
  pub author : Author
  pub text : Text
  pub state : MessageState
  pub created_at : Timestamp
  pub updated_at : Timestamp
  pub kind : MessageKind
  pub routine : Option MessageRoutine
  pub notification : Option MessageNotification

pub record ReadState : Type 0 where
  pub bot_id : BotId
  pub read_up_to : Option MessageId
  pub unread : Bool

pub record RateLimitWindow : Type 0 where
  pub used_percent : ℤ
  pub window_minutes : Option ℤ
  pub resets_at : Option Timestamp

pub record RateLimitBucket : Type 0 where
  pub id : Text
  pub name : Option Text
  pub primary : Option RateLimitWindow
  pub secondary : Option RateLimitWindow
  pub reached : Bool

pub record Allowance : Type 0 where
  pub limits : Limits
  pub turns_today : ℕ
  pub tokens_this_week : ℕ
  pub exhausted : Bool

pub record Usage : Type 0 where
  pub subscription : List RateLimitBucket
  pub allowance : Allowance

abbrev wrote_by_bot : Author → Bool
wrote_by_bot Author.user = Bool.false
wrote_by_bot Author.bot = true

abbrev is_after : MessageId → Option MessageId → Bool
is_after id none = true
is_after id (some read) = ltb read id

-- `Message::is_unread`.
unfoldable pub is_unread : Message → Option MessageId → Bool
is_unread m read_up_to = wrote_by_bot m.author && is_after m.id read_up_to

unfoldable pub BotStatus-discrete : Discrete BotStatus
BotStatus-discrete = hlevel

unfoldable pub MessageState-discrete : Discrete MessageState
MessageState-discrete = hlevel

unfoldable pub Author-discrete : Discrete Author
Author-discrete = hlevel

unfoldable pub MessagePreview-discrete : Discrete MessagePreview
MessagePreview-discrete = hlevel (Author-discrete, ℕ_discrete)

unfoldable pub Bot-discrete : Discrete Bot
Bot-discrete = hlevel (BotStatus-discrete, MessagePreview-discrete, ℕ_discrete)

unfoldable pub Message-discrete : Discrete Message
Message-discrete = hlevel (Author-discrete, MessageState-discrete, ℕ_discrete)

unfoldable pub Usage-discrete : Discrete Usage
Usage-discrete = hlevel ℕ_discrete
