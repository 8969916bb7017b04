-- ===== src/Store/Repeats.antt =====
-- An event that arrives twice.
use mathlib.Core.List.{append-nil}
use bokkie.Prelude.{
  length-drop, holds_yes, ℕ, zero, suc, ◌+◌, ◌-◌, ◌≤◌, ◌≡◌, refl, ◌⊎◌, inl, inr, Bool, true, false,
  none, some, [], ◌∷◌, ◌++◌, arith, length, length-append, drop, Option-cases,
}
use bokkie.Protocol.Routines.{Text, BotId, MessageId}
use bokkie.Protocol.Api.{Message, Message-discrete}
use bokkie.Protocol.Events.{Event}
use bokkie.Maps.{Map, get, insert, get-insert}
use bokkie.Store.Snapshots.{Snapshot, changes, reloads}
use bokkie.Store.State.{Conversation}
use bokkie.Store.Messages.{is_streaming, append_delta, starts_with, differs, converse}

starts_with_self : (t : Text) → starts_with t t ≡ true
unfolding starts_with
starts_with_self [] = refl
starts_with_self (x ∷ t) = ground (arith, starts_with_self t)

differs_self : (m : Message) → differs (some m) m ≡ false
unfolding differs
differs_self m = rw (holds_yes (Message-discrete m m) refl)

drop_all : (n : ℕ) (xs : Text) → length xs ≤ n → drop n xs ≡ []
drop_all zero [] h = refl
drop_all zero (x ∷ xs) h = absurd (omega arith)
drop_all (suc n) [] h = refl
drop_all (suc n) (x ∷ xs) h = drop_all n xs (omega arith)

abbrev extended : Message → ℕ → Text → Message
extended m offset delta = record m { text = m.text ++ drop (length m.text - offset) delta }

append_delta_cases :
    (m : Message) (offset : ℕ) (delta : Text) {m' : Message} {grew : Bool}
    → append_delta m offset delta ≡ some (m', grew)
    → ((is_streaming m.state ≡ false) × (m' ≡ m))
      ⊎ ((is_streaming m.state ≡ true) × (offset ≤ length m.text) × (m' ≡ extended m offset delta))
unfolding append_delta
append_delta_cases m offset delta e = ground arith

ended_again :
    (m : Message) (offset : ℕ) (delta : Text)
    → is_streaming m.state ≡ false
    → append_delta m offset delta ≡ some (m, false)
unfolding append_delta
ended_again m offset delta h = rw h

held_again :
    (m : Message) (offset : ℕ) (delta : Text)
    → is_streaming m.state ≡ true
    → offset + length delta ≤ length m.text
    → append_delta m offset delta ≡ some (m, false)
unfolding append_delta
held_again m offset delta h l =
    ground (arith, drop_all (length m.text - offset) delta (omega arith), append-nil m.text)

-- A delta that was added is held in full.
append_delta_again :
    (m : Message) (offset : ℕ) (delta : Text) {m' : Message} {grew : Bool}
    → append_delta m offset delta ≡ some (m', grew)
    → append_delta m' offset delta ≡ some (m', false)
append_delta_again m offset delta e = elim (append_delta_cases m offset delta e) [
  | inl (ended, same) ↦ rw same (ended_again m offset delta ended)
  | inr (streams, within, Grown) ↦ rw Grown (
      held_again (extended m offset delta) offset delta streams (
        omega (
          arith,
          length-append m.text (drop (length m.text - offset) delta),
          length-drop (length m.text - offset) delta,
        )))
]

get_self : {V : Type 0} (k : ℕ) (v : V) (m : Map V) → get k (insert k v m) ≡ some v
get_self k v m = rw (get-insert k k v m) (ground arith)

delta_missing :
    (bot b : BotId) (c : Conversation) (id : MessageId) (offset : ℕ) (delta : Text)
    → get id c.messages ≡ none
    → converse bot c (Event.message_delta b id offset delta) ≡ (c, reloads (Snapshot.messages bot))
unfolding converse
delta_missing bot b c id offset delta e = rw (e, converse)

delta_beyond :
    (bot b : BotId) (c : Conversation) (id : MessageId) (offset : ℕ) (delta : Text) {m : Message}
    → get id c.messages ≡ some m
    → append_delta m offset delta ≡ none
    → converse bot c (Event.message_delta b id offset delta) ≡ (c, reloads (Snapshot.messages bot))
unfolding converse
delta_beyond bot b c id offset delta e f = ground arith

delta_added :
    (bot b : BotId) (c : Conversation) (id : MessageId) (offset : ℕ) (delta : Text) {m m' : Message}
    {grew : Bool}
    → get id c.messages ≡ some m
    → append_delta m offset delta ≡ some (m', grew)
    → converse bot c (Event.message_delta b id offset delta)
      ≡ (record c { messages = insert id m' c.messages }, changes grew)
unfolding converse
delta_added bot b c id offset delta e f = ground arith

abbrev Again : BotId → Conversation → Event → Type 0
Again bot c e =
    let (once, _) = converse bot c e in
    let (twice, applied) = converse bot once e in
    (applied.changed ≡ false) × ((id : MessageId) → get id twice.messages ≡ get id once.messages)

delta-Again :
    (bot b : BotId) (c : Conversation) (id : MessageId) (offset : ℕ) (delta : Text)
    → Again bot c (Event.message_delta b id offset delta)
delta-Again bot b c id offset delta = elim (Option-cases (get id c.messages)) [
  | inl e ↦
      let missing = delta_missing bot b c id offset delta e in
      rw (missing) (rw (missing) (refl, λ j. refl))
  | inr (m, e) ↦ elim (Option-cases (append_delta m offset delta)) [
    | inl f ↦
        let beyond = delta_beyond bot b c id offset delta e f in
        rw (beyond) (rw (beyond) (refl, λ j. refl))
    | inr ((m', grew), f) ↦ rw (delta_added bot b c id offset delta e f) (
        rw
          (delta_added bot b (record c { messages = insert id m' c.messages }) id offset delta
            (get_self id m' c.messages) (append_delta_again m offset delta f))
          (
            refl,
            λ j. ground (
              arith,
              get-insert id j m' c.messages,
              get-insert id j m' (insert id m' c.messages),
            ),
          ))
  ]
]

-- An event that a conversation takes twice in a row changes nothing the second time: no message that
-- it holds, and nothing that the application would have to show afresh.
pub converse_again :
    (bot : BotId) (c : Conversation) (e : Event)
    → let (once, _) = converse bot c e in
      let (twice, applied) = converse bot once e in
      (applied.changed ≡ false) × ((id : MessageId) → get id twice.messages ≡ get id once.messages)
unfolding converse
converse_again bot c (Event.message_created m) = (
  ground (arith, get_self m.id m c.messages, starts_with_self m.text),
  λ id. ground (arith, get_self m.id m c.messages, starts_with_self m.text),
)
converse_again bot c (Event.message_delta b id offset delta) = delta-Again bot b c id offset delta
converse_again bot c (Event.message_completed m) = (
  ground (arith, get_self m.id m c.messages, differs_self m),
  λ id.
      ground
        (arith, get-insert m.id id m c.messages, get-insert m.id id m (insert m.id m c.messages)),
)
converse_again bot c (Event.bot_created b) = (refl, λ id. refl)
converse_again bot c _ = (refl, λ id. refl)
