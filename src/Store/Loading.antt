-- ===== src/Store/Loading.antt =====
-- store.rs: what `Store::load_messages` makes of the events that arrived while the page loaded.
use bokkie.Prelude.{
  ◌<◌, ◌≡◌, ◌≢◌, refl, sym, ap, ◌∙◌, ◌⊎◌, inl, inr, false, none, some, List, [], ◌∷◌, arith, leb,
  All, Bool-cases, Option-cases,
}
use bokkie.Protocol.Routines.{BotId}
use bokkie.Protocol.Api.{Message}
use bokkie.Protocol.Events.{Event, EventEnvelope}
use bokkie.Maps.{get, get-insert}
use bokkie.Store.Snapshots.{Snapshot, Applied}
use bokkie.Store.State.{Conversation, Store, MessagePage}
use bokkie.Store.Messages.{message_bot, put, converse, converse_after, apply_to_conversation}
use bokkie.Store.Requests.{settle}
use bokkie.Store.Loads.{
  finish, reload_if_stale, ends, conversation_of, note_page, newest_of, load_messages,
}
use bokkie.Store.Apply.{hold, parts, on_conversation, apply}
use bokkie.Store.Frames.{parts-conversations}
use bokkie.Store.CatchUp.{catch_up, get_self, apply_to_conversation_lem, replay-catch_up}

ends-conversations :
    (snapshot : Snapshot) (p : Store × Applied)
    → (ends snapshot p).0.conversations ≡ p.0.conversations
unfolding ends finish settle reload_if_stale
ends-conversations snapshot p = ground arith

-- After the load the conversation is the page's, with every held event applied to it in order.
load_messages-catch_up :
    (s : Store) (bot : BotId) (page : MessagePage)
    → get bot (load_messages s bot page).0.conversations
      ≡ some (catch_up bot (conversation_of page) s.held)
unfolding load_messages conversation_of
load_messages-catch_up s bot page =
    ap (get bot) (ends-conversations (Snapshot.messages bot) _)
    ∙ replay-catch_up bot page.seq s.held _ _ (conversation_of page)
        (get_self bot (conversation_of page)
          (note_page s bot (newest_of page.messages)).conversations)
        refl

-- An event that concerns the Bot's conversation, or no conversation.
abbrev pub Own : BotId → EventEnvelope → Type 0
Own bot e = (message_bot e.event ≡ none) ⊎ (message_bot e.event ≡ some bot)

converse_other :
    (bot : BotId) (c : Conversation) (v : Event) → message_bot v ≡ none → (converse bot c v).0 ≡ c
unfolding converse message_bot
converse_other bot c (Event.bot_created b) h = refl
converse_other bot c v h = ground arith

hold-conversations : (s : Store) (e : EventEnvelope) → (hold s e).conversations ≡ s.conversations
unfolding hold
hold-conversations s e = ground arith

finish-conversations : (s : Store) (a : Applied) → (finish s a).0.conversations ≡ s.conversations
unfolding finish
finish-conversations s a = refl

apply-conversations :
    (s : Store) (e : EventEnvelope)
    → (apply s e).0.conversations ≡ (on_conversation (hold s e) e).0.conversations
unfolding apply
apply-conversations s e =
    finish-conversations (parts (hold s e) e).0 _ ∙ parts-conversations (hold s e) e

converse_after_other :
    (bot : BotId) (c : Conversation) (e : EventEnvelope)
    → message_bot e.event ≡ none
    → (converse_after bot c e).0 ≡ c
unfolding converse_after
converse_after_other bot c e h = elim (Bool-cases (leb e.seq c.seq)) [
  | inl q ↦ rw (q, converse_after) refl
  | inr q ↦ rw (q, converse_after) (converse_other bot c e.event h)
]

on_conversation-Own :
    (s : Store) (bot : BotId) (e : EventEnvelope) (c : Conversation)
    → get bot s.conversations ≡ some c
    → Own bot e
    → get bot (on_conversation s e).0.conversations ≡ some (converse_after bot c e).0
unfolding on_conversation
on_conversation-Own s bot e c h (inl n) =
    rw (n, on_conversation) (h ∙ ap some (sym (converse_after_other bot c e n)))
on_conversation-Own s bot e c h (inr n) =
    rw (n, on_conversation) (apply_to_conversation_lem s bot e c h)

apply-Own :
    (s : Store) (bot : BotId) (e : EventEnvelope) (c : Conversation)
    → get bot s.conversations ≡ some c
    → Own bot e
    → get bot (apply s e).0.conversations ≡ some (converse_after bot c e).0
apply-Own s bot e c h own =
    ap (get bot) (apply-conversations s e)
    ∙ on_conversation-Own (hold s e) bot e c (ap (get bot) (hold-conversations s e) ∙ h) own

-- The events applied one after another.
unfoldable pub apply_all : Store → List EventEnvelope → Store
apply_all s [] = s
apply_all s (e ∷ es) = apply_all (apply s e).0 es

apply_all-catch_up :
    (s : Store) (bot : BotId) (es : List EventEnvelope) (c : Conversation)
    → get bot s.conversations ≡ some c
    → All (Own bot) es
    → get bot (apply_all s es).conversations ≡ some (catch_up bot c es)
unfolding apply_all catch_up
apply_all-catch_up s bot [] c h own = h
apply_all-catch_up s bot (e ∷ es) c h (own, owns) =
    apply_all-catch_up (apply s e).0 bot es (converse_after bot c e).0 (apply-Own s bot e c h own)
      owns

-- Where every held event concerns this Bot's conversation or none, loading the page after the
-- events came is the same for the conversation as applying the events to a store that had the page
-- first.
pub load_messages-apply_all :
    (s t : Store) (bot : BotId) (page : MessagePage)
    → get bot t.conversations ≡ some (conversation_of page)
    → All (Own bot) s.held
    → get bot (load_messages s bot page).0.conversations
      ≡ get bot (apply_all t s.held).conversations
load_messages-apply_all s t bot page h own =
    load_messages-catch_up s bot page
    ∙ sym (apply_all-catch_up t bot s.held (conversation_of page) h own)

converse_after_created :
    (bot : BotId) (c : Conversation) (e : EventEnvelope) (m : Message)
    → e.event ≡ Event.message_created m
    → c.seq < e.seq
    → get m.id c.messages ≡ none
    → (converse_after bot c e).0 ≡ put c m
unfolding converse_after converse
converse_after_created bot c e m made new fresh =
    rw (made, fresh, late, converse_after, converse) refl
  where
    late : leb e.seq c.seq ≡ false
    late = ground arith

apply_to_conversation-foreign :
    (s : Store) (bot other : BotId) (e : EventEnvelope)
    → other ≢ bot
    → get bot (apply_to_conversation s other e).0.conversations ≡ get bot s.conversations
unfolding apply_to_conversation
apply_to_conversation-foreign s bot other e foreign =
    elim (Option-cases (get other s.conversations)) [
      | inl q ↦ rw (q, apply_to_conversation) refl
      | inr (c, q) ↦
          rw (q, apply_to_conversation, get-insert other bot (converse_after other c e).0)
            (ground arith)
    ]

on_conversation-foreign :
    (s : Store) (bot : BotId) (e : EventEnvelope) (m : Message)
    → e.event ≡ Event.message_created m
    → m.bot_id ≢ bot
    → get bot (on_conversation s e).0.conversations ≡ get bot s.conversations
unfolding on_conversation message_bot
on_conversation-foreign s bot e m made foreign =
    rw (made, on_conversation) (apply_to_conversation-foreign s bot m.bot_id e foreign)

apply-foreign :
    (s : Store) (bot : BotId) (e : EventEnvelope) (m : Message)
    → e.event ≡ Event.message_created m
    → m.bot_id ≢ bot
    → get bot (apply s e).0.conversations ≡ get bot s.conversations
apply-foreign s bot e m made foreign =
    ap (get bot) (apply-conversations s e)
    ∙ on_conversation-foreign (hold s e) bot e m made foreign
    ∙ ap (get bot) (hold-conversations s e)

-- While a Bot's conversation loads, let one event be held: a message that another Bot has created,
-- after the page's number and under an identifier that the page does not hold. The load puts that
-- message into this Bot's conversation, though the same event applied to a store that holds the
-- page leaves the conversation as the page has it.
pub load_messages-foreign :
    (s t : Store) (bot : BotId) (page : MessagePage) (e : EventEnvelope) (m : Message)
    → s.held ≡ e ∷ []
    → get bot t.conversations ≡ some (conversation_of page)
    → e.event ≡ Event.message_created m
    → m.bot_id ≢ bot
    → page.seq < e.seq
    → get m.id (conversation_of page).messages ≡ none
    → (get bot (load_messages s bot page).0.conversations ≡ some (put (conversation_of page) m))
      × (get bot (apply t e).0.conversations ≡ some (conversation_of page))
unfolding catch_up conversation_of
load_messages-foreign s t bot page e m held loaded made foreign new fresh = (
  load_messages-catch_up s bot page
      ∙ rw (held, catch_up)
          (ap some (converse_after_created bot (conversation_of page) e m made new fresh)),
  apply-foreign t bot e m made foreign ∙ loaded,
)
