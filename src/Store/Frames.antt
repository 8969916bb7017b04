-- ===== src/Store/Frames.antt =====
-- What the parts of an event leave alone.
use bokkie.Prelude.{◌≡◌, refl, inl, inr, arith, Option-cases}
use bokkie.Protocol.Routines.{BotId}
use bokkie.Protocol.Api.{Message}
use bokkie.Protocol.Events.{Event, EventEnvelope}
use bokkie.Store.State.{Store}
use bokkie.Store.Messages.{message_bot, apply_to_conversation}
use bokkie.Store.RoutineLists.{apply_to_routines}
use bokkie.Store.Bots.{apply_to_bots, list_on, note_unread, preview_created}
use bokkie.Store.Snapshots.{Applied}
use bokkie.Store.Apply.{on_conversation, on_usage, parts}

-- The loads and the events held for them.
pub record SameLoads (s t : Store) : Type 0 where
  pub loading : t.loading ≡ s.loading
  pub held : t.held ≡ s.held
  pub stale : t.stale ≡ s.stale

-- And the conversations.
pub record SameTalk (s t : Store) : Type 0 where
  pub loads : SameLoads s t
  pub conversations : t.conversations ≡ s.conversations

pub apply_to_conversation-SameLoads :
    (s : Store) (bot : BotId) (e : EventEnvelope) → SameLoads s (apply_to_conversation s bot e).0
unfolding apply_to_conversation
apply_to_conversation-SameLoads s bot e = ground arith

pub apply_to_routines-SameTalk :
    (s : Store) (e : EventEnvelope) → SameTalk s (apply_to_routines s e).0
unfolding apply_to_routines
apply_to_routines-SameTalk s e = ground arith

note_unread-SameTalk : (s : Store) (m : Message) → SameTalk s (note_unread s m).0
unfolding note_unread
note_unread-SameTalk s m = ground arith

SameTalk-trans : (s t u : Store) → SameTalk s t → SameTalk t u → SameTalk s u
SameTalk-trans s t u a b = ground arith

preview_created-SameTalk : (s : Store) (m : Message) → SameTalk s (preview_created s m).0
unfolding preview_created
preview_created-SameTalk s m = ground arith

list_on-SameTalk : (s : Store) (e : Event) → SameTalk s (list_on s e).0
unfolding list_on
list_on-SameTalk s (Event.message_created m) =
    SameTalk-trans s (note_unread s m).0 _ (note_unread-SameTalk s m)
      (preview_created-SameTalk (note_unread s m).0 m)
list_on-SameTalk s (Event.bot_created b) = ground arith
list_on-SameTalk s _ = ground arith

pub apply_to_bots-SameTalk : (s : Store) (e : EventEnvelope) → SameTalk s (apply_to_bots s e).0
unfolding apply_to_bots
apply_to_bots-SameTalk s e = ground (arith, list_on-SameTalk s e.event)

on_conversation-SameLoads : (s : Store) (e : EventEnvelope) → SameLoads s (on_conversation s e).0
unfolding on_conversation
on_conversation-SameLoads s e = elim (Option-cases (message_bot e.event)) [
  | inl n ↦ rw (n, on_conversation) (record { loading = refl; held = refl; stale = refl })
  | inr (bot, n) ↦ rw (n, on_conversation) (apply_to_conversation-SameLoads s bot e)
]

on_usage-SameTalk : (e : Event) (s : Store) (a : Applied) → SameTalk s (on_usage e s a).0
unfolding on_usage
on_usage-SameTalk (Event.bot_created b) s a = ground arith
on_usage-SameTalk _ s a = ground arith

later-SameTalk : (s : Store) (e : EventEnvelope) → SameTalk (on_conversation s e).0 (parts s e).0
unfolding parts
later-SameTalk s e =
    let s₁ = (on_conversation s e).0 in
    let s₂ = (apply_to_bots s₁ e).0 in
    let s₃ = (apply_to_routines s₂ e).0 in
    SameTalk-trans s₁ s₂ (parts s e).0 (apply_to_bots-SameTalk s₁ e) (
      SameTalk-trans s₂ s₃ (parts s e).0 (apply_to_routines-SameTalk s₂ e)
        (on_usage-SameTalk e.event s₃ _))

pub parts-SameLoads : (s : Store) (e : EventEnvelope) → SameLoads s (parts s e).0
parts-SameLoads s e = ground (arith, on_conversation-SameLoads s e, later-SameTalk s e)

pub parts-conversations :
    (s : Store) (e : EventEnvelope)
    → (parts s e).0.conversations ≡ (on_conversation s e).0.conversations
parts-conversations s e = (later-SameTalk s e).conversations
