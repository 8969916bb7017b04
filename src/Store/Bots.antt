-- ===== src/Store/Bots.antt =====
-- store.rs: the Bot list: `apply_to_bots` and what it calls, and the usage meter.
use bokkie.Prelude.{
  ℕ, max, Bool, true, false, not, ◌&&◌, ◌||◌, Option, none, some, ltb, leb, ◌==◌, if◌then◌else◌,
  holds, ℕ_discrete,
}
use bokkie.Protocol.Routines.{Text, BotId, MessageId}
use bokkie.Protocol.Api.{
  Bot, BotStatus, Message, MessagePreview, ReadState, is_unread, Bot-discrete, BotStatus-discrete,
  MessagePreview-discrete,
}
use bokkie.Protocol.Events.{Event, EventEnvelope}
use bokkie.Maps.{get, insert, has_key}
use bokkie.Store.Snapshots.{Snapshot, Applied, changes, reloads, unchanged, merge}
use bokkie.Store.State.{Store}
use bokkie.Store.Messages.{preview}

abbrev same_number : Option ℕ → Option ℕ → Bool
same_number none none = true
same_number none (some b) = false
same_number (some a) none = false
same_number (some a) (some b) = a == b

unfoldable pub note_newest : Store → BotId → MessageId → Store
note_newest s bot message = elim (get bot s.newest) [
  | none ↦ record s { newest = insert bot message s.newest }
  | some newest ↦ record s { newest = insert bot (max newest message) s.newest }
]

-- `held_preview`: of the open conversation's copy.
unfoldable pub held_preview : Store → BotId → MessageId → Option MessagePreview
unfolding preview
held_preview s bot message = elim (get bot s.conversations) [
  | none ↦ none
  | some c ↦ elim (get message c.messages) [ none ↦ none | some m ↦ some (preview m) ]
]

abbrev same_preview : Option MessagePreview → MessagePreview → Bool
same_preview none p = false
same_preview (some held) p = holds (MessagePreview-discrete held p)

unfoldable pub set_preview : Store → BotId → MessagePreview → Store × Applied
set_preview s bot p = elim (get bot s.bots) [
  | none ↦ (s, reloads Snapshot.bots)
  | some b ↦ (
    record s { bots = insert bot (record b { last_message = some p }) s.bots },
    changes (not (same_preview b.last_message p)),
  )
]

set_held : Store → BotId → MessageId → Store × Applied
unfolding set_preview held_preview
set_held s bot message = elim (held_preview s bot message) [
  | none ↦ (s, unchanged)
  | some p ↦ set_preview s bot p
]

unfoldable pub note_unread : Store → Message → Store × Applied
note_unread s m = elim (get m.bot_id s.bots) [
  | none ↦ (s, unchanged)
  | some b ↦
      if not b.unread && is_unread m b.read_up_to
      then (record s { bots = insert m.bot_id (record b { unread = true }) s.bots }, changes true)
      else (s, unchanged)
]

preview_new : Store → Message → Store × Applied
unfolding set_preview held_preview preview
preview_new s m = elim (held_preview s m.bot_id m.id) [
  | none ↦ set_preview s m.bot_id (preview m)
  | some p ↦ set_preview s m.bot_id p
]

unfoldable pub preview_created : Store → Message → Store × Applied
unfolding note_newest set_held preview_new
preview_created s m =
    let noted = note_newest s m.bot_id m.id in
    elim (get m.bot_id s.newest) [
      | none ↦ preview_new noted m
      | some newest ↦
          if ltb m.id newest
          then (noted, unchanged)
          else if newest == m.id
          then set_held noted m.bot_id m.id
          else preview_new noted m
    ]

put_bot : Store → Bot → Store × Applied
put_bot s b = (record s { bots = insert b.id b s.bots }, changes (not (same (get b.id s.bots))))
  where
    same : Option Bot → Bool
    same none = false
    same (some held) = holds (Bot-discrete held b)

set_status : Store → BotId → BotStatus → Store × Applied
set_status s bot status = elim (get bot s.bots) [
  | none ↦ (s, reloads Snapshot.bots)
  | some b ↦ (
    record s { bots = insert bot (record b { status = status }) s.bots },
    changes (not (holds (BotStatus-discrete b.status status))),
  )
]

preview_delta : Store → BotId → MessageId → Store × Applied
unfolding set_held
preview_delta s bot message =
    if same_number (get bot s.newest) (some message) then set_held s bot message else (s, unchanged)

preview_completed : Store → Message → Store × Applied
unfolding note_newest set_preview preview
preview_completed s m = elim (get m.bot_id s.newest) [
  | none ↦ (s, if has_key m.bot_id s.bots then reloads Snapshot.bots else unchanged)
  | some newest ↦
      if ltb m.id newest
      then (s, unchanged)
      else set_preview (note_newest s m.bot_id m.id) m.bot_id (preview m)
]

abbrev same_text : Option Text → Text → Bool
same_text none t = false
same_text (some held) t = holds (texts held t)
  where
    texts : Discrete Text
    texts = hlevel ℕ_discrete

set_error : Store → BotId → Text → Store × Applied
set_error s bot message = (
  record s { errors = insert bot message s.errors },
  changes (not (same_text (get bot s.errors) message)),
)

set_read : Store → ReadState → Store × Applied
set_read s read = elim (get read.bot_id s.bots) [
  | none ↦ (s, reloads Snapshot.bots)
  | some b ↦ (
    record s {
      bots =
          insert read.bot_id (record b { read_up_to = read.read_up_to; unread = read.unread })
            s.bots;
    },
    changes
        (not (same_number b.read_up_to read.read_up_to) || not (same_bool b.unread read.unread)),
  )
]
  where
    same_bool : Bool → Bool → Bool
    same_bool true b = b
    same_bool false b = not b

created_on : Store → Message → Store × Applied
unfolding note_unread preview_created
created_on s m =
    let (unread, first) = note_unread s m in
    let (previewed, second) = preview_created unread m in (previewed, merge first second)

-- The match of `apply_to_bots`, on a list that the event follows.
unfoldable pub list_on : Store → Event → Store × Applied
unfolding put_bot set_status created_on preview_delta preview_completed set_error set_read
list_on s (Event.bot_created b) = put_bot s b
list_on s (Event.bot_updated b) = put_bot s b
list_on s (Event.bot_status_changed bot status) = set_status s bot status
list_on s (Event.message_created m) = created_on s m
list_on s (Event.message_delta bot message offset delta) = preview_delta s bot message
list_on s (Event.message_completed m) = preview_completed s m
list_on s (Event.bot_error bot message) = set_error s bot message
list_on s (Event.read_updated read) = set_read s read
list_on s _ = (s, unchanged)

unfoldable pub apply_to_bots : Store → EventEnvelope → Store × Applied
apply_to_bots s e = elim s.bots_seq [
  | none ↦ (s, unchanged)
  | some seq ↦ if leb e.seq seq then (s, unchanged) else list_on s e.event
]
