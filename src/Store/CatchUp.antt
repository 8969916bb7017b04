-- ===== src/Store/CatchUp.antt =====
-- A conversation that loads while its events arrive.
use bokkie.Prelude.{
  ℕ, ◌≡◌, refl, sym, ap, ◌∙◌, inl, inr, false, some, List, [], ◌∷◌, arith, leb, ltb, Bool-cases,
  Option-cases,
}
use bokkie.Protocol.Routines.{BotId}
use bokkie.Protocol.Events.{Seq, Event, EventEnvelope}
use bokkie.Maps.{get, insert, get-insert}
use bokkie.Store.Snapshots.{Applied}
use bokkie.Store.State.{Conversation, Store}
use bokkie.Store.Messages.{
  append_delta, put, delta_on, converse, converse_after, apply_to_conversation,
}
use bokkie.Store.Loads.{replay}

-- The conversation with events applied to it one after another, each after its snapshot's number.
unfoldable pub catch_up : BotId → Conversation → List EventEnvelope → Conversation
catch_up bot c [] = c
catch_up bot c (e ∷ es) = catch_up bot (converse_after bot c e).0 es

converse-seq : (bot : BotId) (c : Conversation) (v : Event) → (converse bot c v).0.seq ≡ c.seq
unfolding converse put delta_on
converse-seq bot c (Event.message_delta b id offset delta) =
    elim (Option-cases (get id c.messages)) [
      | inl q ↦ rw (q, converse) refl
      | inr (m, q) ↦ elim (Option-cases (append_delta m offset delta)) [
        | inl r ↦ rw (q, converse, r) refl
        | inr (x, r) ↦ rw (q, converse, r) refl
      ]
    ]
converse-seq bot c v = ground arith

converse_after-seq :
    (bot : BotId) (c : Conversation) (e : EventEnvelope) → (converse_after bot c e).0.seq ≡ c.seq
unfolding converse_after
converse_after-seq bot c e = elim (Bool-cases (leb e.seq c.seq)) [
  | inl q ↦ rw (q, converse_after) refl
  | inr q ↦ rw (q, converse_after) (converse-seq bot c e.event)
]

converse_after_old :
    (bot : BotId) (c : Conversation) (e : EventEnvelope)
    → ltb c.seq e.seq ≡ false
    → (converse_after bot c e).0 ≡ c
unfolding converse_after
converse_after_old bot c e h = ground arith

pub get_self : {V : Type 0} (k : ℕ) (v : V) (m : _) → get k (insert k v m) ≡ some v
get_self k v m = rw (get-insert k k v m) (ground arith)

pub apply_to_conversation_lem :
    (s : Store) (bot : BotId) (e : EventEnvelope) (c : Conversation)
    → get bot s.conversations ≡ some c
    → get bot (apply_to_conversation s bot e).0.conversations ≡ some (converse_after bot c e).0
unfolding apply_to_conversation
apply_to_conversation_lem s bot e c h =
    rw (h, apply_to_conversation) (get_self bot (converse_after bot c e).0 s.conversations)

pub replay-catch_up :
    (bot : BotId) (seq : Seq) (es : List EventEnvelope) (s : Store) (a : Applied) (c : Conversation)
    → get bot s.conversations ≡ some c
    → c.seq ≡ seq
    → get bot (replay (λ t e. apply_to_conversation t bot e) seq es s a).0.conversations
      ≡ some (catch_up bot c es)
unfolding replay catch_up
replay-catch_up bot seq [] s a c h q = h
replay-catch_up bot seq (e ∷ es) s a c h q = elim (Bool-cases (ltb seq e.seq)) [
  | inl new ↦
      rw (new, replay)
        (replay-catch_up bot seq es (apply_to_conversation s bot e).0 _ (converse_after bot c e).0
          (apply_to_conversation_lem s bot e c h) (converse_after-seq bot c e ∙ q))
  | inr old ↦
      rw (old, replay)
        (replay-catch_up bot seq es s _ c h q
          ∙ ap (λ d. some (catch_up bot d es)) (sym (converse_after_old bot c e (rw (q) old))))
]
