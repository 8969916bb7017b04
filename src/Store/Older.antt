-- ===== src/Store/Older.antt =====
-- store.rs: `Store::load_older`, what the page of older messages leaves alone.
use bokkie.Prelude.{
  ℕ, ◌≡◌, refl, sym, ap, subst, ◌∙◌, inl, inr, Bool, true, false, Option, none, some, List, [], ◌∷◌,
  arith, leb, ltb, ◌==◌, ==_iff, not, ◌&&◌, ◌||◌, Bool-cases, Option-cases,
}
use bokkie.Protocol.Routines.{BotId, MessageId}
use bokkie.Protocol.Api.{Message}
use bokkie.Protocol.Events.{Seq, Event, EventEnvelope}
use bokkie.Maps.{Map, get, insert, has_key, extend, get-insert}
use bokkie.Store.Snapshots.{Snapshot, Applied, contains}
use bokkie.Store.State.{Conversation, Store, MessagePage}
use bokkie.Store.Messages.{append_delta}
use bokkie.Store.Requests.{settle}
use bokkie.Store.Loads.{
  finish, earlier_of, delta_earlier, replay_earlier, replay_held, join_older, older_on, load_older,
}
use bokkie.Store.CatchUp.{get_self}

extend-beside : (k : ℕ) (es m : Map Message) → get k es ≡ none → get k (extend es m) ≡ get k m
unfolding extend get
extend-beside k [] m h = refl
extend-beside k ((j, v) ∷ es) m h =
    extend-beside k es (insert j v m) (ground arith) ∙ get-insert j k v m ∙ ground arith

-- A message of the conversation's, or one that is not before the cursor.
module _ (held : Map Message) (before : MessageId) (k : MessageId)
    (other : (has_key k held || leb before k) ≡ true) where
  same_key : (i : MessageId) → (i == k) ≡ true → (ltb i before && not (has_key i held)) ≡ false
  same_key i q =
      subst (λ j. (ltb j before && not (has_key j held)) ≡ false) (sym ((==_iff i k).0 q))
        (ground arith)

  earlier_of-beside :
      (bot : BotId) (ms : List Message) → get k (earlier_of bot before held ms) ≡ none
  unfolding earlier_of get
  earlier_of-beside bot [] = refl
  earlier_of-beside bot (m ∷ ms) = ground (arith, earlier_of-beside bot ms, same_key m.id)

delta_earlier-beside :
    (k id : MessageId) (earlier : Map Message) (complete : Bool) (o : Option (Message × Bool))
    → get k earlier ≡ none
    → (id == k) ≡ false
    → get k (delta_earlier id earlier complete o).0 ≡ none
unfolding delta_earlier
delta_earlier-beside k id earlier complete none h d = h
delta_earlier-beside k id earlier complete (some (m, grew)) h d = get-insert id k m earlier ∙ rw d h

held_other :
    (k id : MessageId) (earlier : Map Message) (m : Message)
    → get k earlier ≡ none
    → get id earlier ≡ some m
    → (id == k) ≡ false
held_other k id earlier m h g = elim (Bool-cases (id == k)) [
  | inl q ↦ absurd (clash (sym h ∙ ap (λ j. get j earlier) (sym ((==_iff id k).0 q)) ∙ g))
  | inr q ↦ q
]
  where
    clash : none ≡ some m → ⊥
    clash e = ground arith

replay_earlier-beside :
    (k : MessageId) (v : Event) (earlier : Map Message) (complete : Bool)
    → get k earlier ≡ none
    → get k (replay_earlier v earlier complete).0 ≡ none
unfolding replay_earlier has_key
replay_earlier-beside k (Event.message_delta b id offset delta) earlier complete h =
    elim (Option-cases (get id earlier)) [
      | inl q ↦ rw (q, replay_earlier) h
      | inr (m, q) ↦
          rw (q, replay_earlier)
            (delta_earlier-beside k id earlier complete (append_delta m offset delta) h
              (held_other k id earlier m h q))
    ]
replay_earlier-beside k (Event.message_completed m) earlier complete h =
    elim (Option-cases (get m.id earlier)) [
      | inl q ↦ rw (q, has_key) h
      | inr (held, q) ↦
          rw (q, has_key) (get-insert m.id k m earlier ∙ rw (held_other k m.id earlier held h q) h)
    ]
replay_earlier-beside k v earlier complete h = ground arith

replay_held-beside :
    (k : MessageId) (seq : Seq) (es : List EventEnvelope) (earlier : Map Message) (complete : Bool)
    → get k earlier ≡ none
    → get k (replay_held seq es earlier complete).0 ≡ none
unfolding replay_held
replay_held-beside k seq [] earlier complete h = h
replay_held-beside k seq (e ∷ es) earlier complete h = elim (Bool-cases (ltb seq e.seq)) [
  | inl q ↦
      rw (q, replay_held)
        (replay_held-beside k seq es _ _ (replay_earlier-beside k e.event earlier complete h))
  | inr q ↦ rw (q, replay_held) (replay_held-beside k seq es earlier complete h)
]

join_older-beside :
    (k : MessageId) (bot : BotId) (c : Conversation) (page : MessagePage) (earlier : Map Message)
    (complete : Bool)
    → get k earlier ≡ none
    → get k (join_older bot c page earlier complete).0.messages ≡ get k c.messages
unfolding join_older
join_older-beside k bot c page earlier true h = extend-beside k earlier c.messages h
join_older-beside k bot c page earlier false h = refl

older_on-beside :
    (bot : BotId) (c : Conversation) (before k : MessageId) (page : MessagePage)
    (held : List EventEnvelope) (stale : Bool)
    → (has_key k c.messages || leb before k) ≡ true
    → get k (older_on bot c before page held stale).0.messages ≡ get k c.messages
unfolding older_on get
older_on-beside bot c before k page held stale other = ground (arith, joined)
  where
    get_nil : get {V = Message} k [] ≡ none
    get_nil = refl

    joined :
        get k
          (join_older bot c page
            (replay_held page.seq held
              (extend (earlier_of bot before c.messages page.messages) [])
              (not stale)).0
            (replay_held page.seq held
              (extend (earlier_of bot before c.messages page.messages) [])
              (not stale)).1).0.messages
        ≡ get k c.messages
    joined = join_older-beside k bot c page _ _ (
        replay_held-beside k page.seq held _ _ (
          extend-beside k (earlier_of bot before c.messages page.messages) []
            (earlier_of-beside c.messages before k other bot page.messages)
          ∙ get_nil))

settled-conversations :
    (s : Store) (a : Applied) → (finish (settle s) a).0.conversations ≡ s.conversations
unfolding finish settle
settled-conversations s a = ground arith

-- A page of older messages changes none of the messages that the conversation held, and adds none
-- at or after the cursor that the page was requested with, whatever the page holds, whichever
-- events were held meanwhile, and whether the page is used or not.
pub load_older-kept :
    (s : Store) (bot : BotId) (before k : MessageId) (page : MessagePage) (c : Conversation)
    → get bot s.conversations ≡ some c
    → (has_key k c.messages || leb before k) ≡ true
    → (c' : Conversation) × (get bot (load_older s bot before page).0.conversations ≡ some c')
      × (get k c'.messages ≡ get k c.messages)
unfolding load_older
load_older-kept s bot before k page c h other =
    let c' : Conversation =
      (older_on bot c before page s.held (contains s.stale (Snapshot.older bot))).0 in
    rw (h, load_older)
      (
        c',
        ap (get bot) (settled-conversations _ _) ∙ get_self bot c' s.conversations,
        older_on-beside bot c before k page s.held _ other,
      )
