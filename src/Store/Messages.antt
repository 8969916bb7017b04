-- ===== src/Store/Messages.antt =====
-- store.rs: the messages of one conversation: `append_delta`, `preview`, `message_bot` and
-- `Store::apply_to_conversation`.
use bokkie.Prelude.{
  ℕ, ◌-◌, Bool, true, false, not, ◌||◌, Option, none, some, [], ◌∷◌, ◌++◌, ltb, leb, ◌==◌,
  if◌then◌else◌, length, take, drop, holds,
}
use bokkie.Protocol.Routines.{Text, BotId, MessageId}
use bokkie.Protocol.Api.{Message, MessagePreview, MessageState, Message-discrete}
use bokkie.Protocol.Events.{Event, EventEnvelope}
use bokkie.Maps.{get, insert}
use bokkie.Store.Snapshots.{Snapshot, Applied, changes, reloads, unchanged, is_empty}
use bokkie.Store.State.{Conversation, Store, preview_chars}

abbrev pub is_streaming : MessageState → Bool
is_streaming MessageState.streaming = true
is_streaming _ = false

-- `None` says that the delta starts beyond the text held.
unfoldable pub append_delta : Message → ℕ → Text → Option (Message × Bool)
append_delta m offset delta =
    let held = length m.text in
    let new = drop (held - offset) delta in
    if not (is_streaming m.state)
    then some (m, false)
    else (if ltb held offset
        then none
        else some (record m { text = m.text ++ new }, not (is_empty new)))

unfoldable pub message_bot : Event → Option BotId
message_bot (Event.message_created m) = some m.bot_id
message_bot (Event.message_completed m) = some m.bot_id
message_bot (Event.message_delta b m offset delta) = some b
message_bot _ = none

unfoldable pub preview : Message → MessagePreview
preview m = record { author = m.author; text = take preview_chars m.text; at = m.updated_at }

unfoldable pub starts_with : Text → Text → Bool
starts_with text [] = true
starts_with [] (p ∷ ps) = false
starts_with (t ∷ ts) (p ∷ ps) = let rest = starts_with ts ps in if t == p then rest else false

-- Whether two optional messages differ.
unfoldable pub differs : Option Message → Message → Bool
differs none m = true
differs (some held) m = not (holds (Message-discrete held m))

-- A copy that is ahead of the message's creation.
abbrev is_ahead : Option Message → Message → Bool
is_ahead none m = false
is_ahead (some held) m = not (is_streaming held.state) || starts_with held.text m.text

unfoldable pub put : Conversation → Message → Conversation
put c m = record c { messages = insert m.id m c.messages }

unfoldable pub delta_on :
    BotId → Conversation → MessageId → Option (Message × Bool) → Conversation × Applied
unfolding put
delta_on bot c id none = (c, reloads (Snapshot.messages bot))
delta_on bot c id (some (m, grew)) = (record c { messages = insert id m c.messages }, changes grew)

-- The match of `apply_to_conversation`, on a conversation that the event follows.
unfoldable pub converse : BotId → Conversation → Event → Conversation × Applied
unfolding put delta_on
converse bot c (Event.message_created m) =
    if is_ahead (get m.id c.messages) m then (c, unchanged) else (put c m, changes true)
converse bot c (Event.message_delta b id offset delta) = elim (get id c.messages) [
  | none ↦ (c, reloads (Snapshot.messages bot))
  | some m ↦ delta_on bot c id (append_delta m offset delta)
]
converse bot c (Event.message_completed m) = (put c m, changes (differs (get m.id c.messages) m))
converse bot c _ = (c, unchanged)

-- An event at or before the snapshot's number is in it already.
unfoldable pub converse_after : BotId → Conversation → EventEnvelope → Conversation × Applied
unfolding converse
converse_after bot c e = if leb e.seq c.seq then (c, unchanged) else converse bot c e.event

unfoldable pub apply_to_conversation : Store → BotId → EventEnvelope → Store × Applied
unfolding converse_after
apply_to_conversation s bot e = elim (get bot s.conversations) [
  | none ↦ (s, unchanged)
  | some c ↦
      let (c', applied) = converse_after bot c e in
      (record s { conversations = insert bot c' s.conversations }, applied)
]
