-- ===== src/Tests/Store.antt =====
-- The client's store: deltas that overlap, and a conversation that loads while events arrive.
use bokkie.Prelude.{
  ℕ, ◌≡◌, refl, inr, none, some, List, [], ◌∷◌, arith, true, false, not, ◌&&◌, ◌||◌,
}
use bokkie.Protocol.Routines.{BotId, MessageId, Text}
use bokkie.Protocol.Api.{Message, MessageState, MessageKind, Author}
use bokkie.Protocol.Events.{Event, EventEnvelope}
use bokkie.Maps.{get, extend, insert}
use bokkie.Store.Snapshots.{Snapshot, contains, reloads}
use bokkie.Store.State.{Conversation, Store, MessagePage, new}
use bokkie.Store.Messages.{put, converse, message_bot}
use bokkie.Store.Loads.{finish, load_messages, load_older, conversation_of}
use bokkie.Store.Apply.{apply}
use bokkie.Store.Streaming.{Copy, Reaches, assemble, assemble-reply}
use bokkie.Store.Repeats.{converse_again}
use bokkie.Store.Holding.{Bounded}
use bokkie.Store.Sessions.{Call, perform_all, new-perform_all-Bounded}
use bokkie.Store.Loading.{apply_all, load_messages-apply_all, load_messages-foreign}
use bokkie.Store.Arrivals.{no_repeats, apply_all-held, finish-reload}
use bokkie.Store.Older.{load_older-kept}

abbrev says : MessageId → BotId → Text → Message
says id bot text = record {
  id = id;
  bot_id = bot;
  author = Author.bot;
  text = text;
  state = MessageState.streaming;
  created_at = 0;
  updated_at = 0;
  kind = MessageKind.text;
  routine = none;
  notification = none;
}

abbrev reply : Text
reply = 72 ∷ 101 ∷ 108 ∷ 108 ∷ 111 ∷ []

abbrev partial : Message
partial = says 4 1 (72 ∷ 101 ∷ [])

abbrev copy : Copy reply 2 partial
copy = record { streams = refl; within = omega arith; holds = refl }

abbrev deltas : List (ℕ × Text)
deltas = (0, 72 ∷ 101 ∷ []) ∷ (1, 101 ∷ 108 ∷ 108 ∷ []) ∷ (4, 111 ∷ []) ∷ []

abbrev reaching : Reaches reply 2 deltas
reaching = (
  omega arith,
  (omega arith, 108 ∷ 108 ∷ 111 ∷ [], refl),
  (omega arith, (omega arith, 111 ∷ [], refl), (omega arith, (omega arith, [], refl), omega arith)),
)

assemble-reply_example : (m' : Message) × (assemble partial deltas ≡ some m') × (m'.text ≡ reply)
assemble-reply_example = assemble-reply reply 2 deltas partial copy reaching

abbrev page : MessagePage
page = record { messages = says 4 1 (72 ∷ []) ∷ []; older = some 4; seq = 10 }

abbrev delta_event : Event
delta_event = Event.message_delta 1 4 1 (101 ∷ [])

converse_again_example :
    let (once, _) = converse 1 (conversation_of page) delta_event in
    let (twice, applied) = converse 1 once delta_event in
    (applied.changed ≡ false) × ((id : MessageId) → get id twice.messages ≡ get id once.messages)
converse_again_example = converse_again 1 (conversation_of page) delta_event

abbrev calls : List Call
calls =
    Call.requests (Snapshot.messages 1)
    ∷ Call.applies (record { seq = 11; at = 0; event = delta_event })
    ∷ Call.loads_messages 1 page
    ∷ []

new-perform_all-Bounded_example : Bounded (perform_all new calls)
new-perform_all-Bounded_example = new-perform_all-Bounded calls

abbrev follows : EventEnvelope
follows = record { seq = 11; at = 0; event = delta_event }

abbrev foreign : EventEnvelope
foreign = record { seq = 11; at = 0; event = Event.message_created (says 9 2 (33 ∷ [])) }

abbrev loading : List EventEnvelope → Store
loading held = record new { loading = Snapshot.messages 1 ∷ []; held = held }

abbrev loaded : Store
loaded = record new { conversations = (1, conversation_of page) ∷ [] }

load_messages-apply_all_example :
    get 1 (load_messages (loading (follows ∷ [])) 1 page).0.conversations
    ≡ get 1 (apply_all loaded (follows ∷ [])).conversations
unfolding get message_bot
load_messages-apply_all_example =
    load_messages-apply_all (loading (follows ∷ [])) loaded 1 page refl (inr refl, tt)

load_messages-foreign_example :
    (get 1 (load_messages (loading (foreign ∷ [])) 1 page).0.conversations
      ≡ some (put (conversation_of page) (says 9 2 (33 ∷ []))))
    × (get 1 (apply loaded foreign).0.conversations ≡ some (conversation_of page))
unfolding get conversation_of extend insert
load_messages-foreign_example =
    load_messages-foreign (loading (foreign ∷ [])) loaded 1 page foreign (says 9 2 (33 ∷ [])) refl
      refl refl (ground arith) (omega arith) refl

apply_all-held_example :
    (apply_all (loading []) (follows ∷ foreign ∷ [])).held ≡ follows ∷ foreign ∷ []
apply_all-held_example = apply_all-held (loading []) (follows ∷ foreign ∷ []) refl (omega arith)

finish-reload_example :
    (contains (finish (loading []) (reloads Snapshot.bots)).1.reload Snapshot.bots ≡ (
      not (contains (Snapshot.messages 1 ∷ []) Snapshot.bots)
      && contains (Snapshot.bots ∷ []) Snapshot.bots))
    × (contains (finish (loading []) (reloads Snapshot.bots)).0.loading Snapshot.bots ≡ (
        contains (Snapshot.messages 1 ∷ []) Snapshot.bots
        || contains (Snapshot.bots ∷ []) Snapshot.bots))
    × (no_repeats (finish (loading []) (reloads Snapshot.bots)).1.reload ≡ true)
finish-reload_example = finish-reload (loading []) (reloads Snapshot.bots) Snapshot.bots

load_older-kept_example :
    (c' : Conversation) × (get 1 (load_older loaded 1 4 page).0.conversations ≡ some c')
    × (get 4 c'.messages ≡ get 4 (conversation_of page).messages)
unfolding get
load_older-kept_example =
    load_older-kept loaded 1 4 4 page (conversation_of page) refl (ground arith)
