-- ===== src/Store/State.antt =====
-- store.rs: the store's data.
use bokkie.Prelude.{ℕ, Bool, false, Option, none, List, []}
use bokkie.Protocol.Routines.{Text, MessageId, Routine}
use bokkie.Protocol.Api.{Bot, Message, Usage}
use bokkie.Protocol.Events.{Seq, EventEnvelope}
use bokkie.Maps.{Map}
use bokkie.Store.Snapshots.{Snapshots}

pub record Routines : Type 0 where
  pub seq : Seq
  pub routines : Map Routine

pub record Conversation : Type 0 where
  pub seq : Seq
  pub messages : Map Message
  pub older : Option MessageId
  pub requested_older : Option MessageId

pub record Store : Type 0 where
  pub bots : Map Bot
  pub bots_seq : Option Seq
  pub newest : Map MessageId
  pub conversations : Map Conversation
  pub routines : Map Routines
  pub errors : Map Text
  pub usage : Option Usage
  pub usage_event_seen : Bool
  pub loading : Snapshots
  pub held : List EventEnvelope
  pub stale : Snapshots

-- crates/bokkie-protocol/src/api.rs: the bodies of the snapshots.
pub record BotList : Type 0 where
  pub bots : List Bot
  pub unread_bots : ℕ
  pub seq : Seq

pub record MessagePage : Type 0 where
  pub messages : List Message
  pub older : Option MessageId
  pub seq : Seq

pub record RoutineList : Type 0 where
  pub routines : List Routine
  pub seq : Seq

abbrev pub preview_chars : ℕ
preview_chars = 140

abbrev pub max_held : ℕ
max_held = 5000

-- `Store::new`.
unfoldable pub new : Store
new = record {
  bots = [];
  bots_seq = none;
  newest = [];
  conversations = [];
  routines = [];
  errors = [];
  usage = none;
  usage_event_seen = false;
  loading = [];
  held = [];
  stale = [];
}
