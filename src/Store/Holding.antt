-- ===== src/Store/Holding.antt =====
-- The events held while snapshots load: when there are any, and how many.
use bokkie.Prelude.{
  ◌≤◌, ◌≡◌, refl, inl, inr, true, false, Option, none, some, List, [], ◌∷◌, ◌++◌, arith, ap, ltb,
  length, length-append, Option-cases, Bool-cases, map,
}
use bokkie.Protocol.Routines.{BotId, MessageId}
use bokkie.Protocol.Events.{Seq, EventEnvelope}
use bokkie.Maps.{get, keys}
use bokkie.Store.Snapshots.{Snapshot, Snapshots, Applied, is_empty, add, add_all, contains}
use bokkie.Store.State.{Store, BotList, MessagePage, RoutineList, max_held, new}
use bokkie.Store.Messages.{apply_to_conversation}
use bokkie.Store.RoutineLists.{apply_to_routines}
use bokkie.Store.Bots.{apply_to_bots}
use bokkie.Store.Requests.{
  settle, request, reload_all, load_failed, older_of, start_older, request_older,
  close_conversation, close_routines,
}
use bokkie.Store.Loads.{
  start_reloads, finish, reload_if_stale, replay, ends, load_bots, load_routines, load_messages,
  load_older, note_page, newest_of,
}
use bokkie.Store.Apply.{hold, parts, apply}
use bokkie.Store.Frames.{
  SameLoads, apply_to_conversation-SameLoads, apply_to_routines-SameTalk, apply_to_bots-SameTalk,
  parts-SameLoads,
}

-- Events are held only while something loads, and only so many.
pub record Bounded (s : Store) : Type 0 where
  pub idle : is_empty s.loading ≡ true → s.held ≡ []
  pub few : length s.held ≤ max_held

-- A store whose `held` may stand though nothing loads, until it is settled.
SameLoads-trans : (s t u : Store) → SameLoads s t → SameLoads t u → SameLoads s u
SameLoads-trans s t u a b = ground arith

settle-Bounded : (s : Store) → length s.held ≤ max_held → Bounded (settle s)
unfolding settle
settle-Bounded s h = ground arith

Grown : Snapshots → Snapshots → Type 0
Grown xs ys = is_empty ys ≡ true → is_empty xs ≡ true

pub start_reloads-Grown :
    (xs loading : Snapshots)
    → is_empty (start_reloads xs loading).1 ≡ true
    → is_empty loading ≡ true
unfolding start_reloads
start_reloads-Grown [] loading h = h
start_reloads-Grown (x ∷ xs) loading h = elim (Bool-cases (contains loading x)) [
  | inl old ↦ start_reloads-Grown xs loading (rw old at h)
  | inr new ↦ absurd (absurd_cons (start_reloads-Grown xs (x ∷ loading) (rw new at h)))
]
  where
    absurd_cons : is_empty (x ∷ loading) ≡ true → ⊥
    absurd_cons e = cc

finish-Bounded : (s : Store) (a : Applied) → Bounded s → Bounded (finish s a).0
unfolding finish
finish-Bounded s a b = ground (arith, start_reloads-Grown a.reload s.loading)

hold-Bounded : (s : Store) (e : EventEnvelope) → Bounded s → Bounded (hold s e)
unfolding hold
hold-Bounded s e b = ground (arith, length-append s.held (e ∷ []))

SameLoads-Bounded : (s t : Store) → SameLoads s t → Bounded s → Bounded t
SameLoads-Bounded s t l b = ground arith

pub apply-Bounded : (s : Store) (e : EventEnvelope) → Bounded s → Bounded (apply s e).0
unfolding apply
apply-Bounded s e b =
    let (s', a) = parts (hold s e) e in
    finish-Bounded s' a
      (SameLoads-Bounded (hold s e) s' (parts-SameLoads (hold s e) e) (hold-Bounded s e b))

-- A load: only the number of held events matters until it is settled.
replay-few :
    (f : Store → EventEnvelope → Store × Applied)
    → ((s : Store) (e : EventEnvelope) → SameLoads s (f s e).0)
    → (seq : Seq) (es : List EventEnvelope) (s : Store) (a : Applied)
    → SameLoads s (replay f seq es s a).0
unfolding replay
replay-few f frame seq [] s a = record { loading = refl; held = refl; stale = refl }
replay-few f frame seq (e ∷ es) s a = elim (Bool-cases (ltb seq e.seq)) [
  | inl new ↦
      rw (new, replay)
        (SameLoads-trans s (f s e).0 _ (frame s e) (replay-few f frame seq es (f s e).0 _))
  | inr old ↦ rw (old, replay) (replay-few f frame seq es s _)
]

ends-Bounded :
    (snapshot : Snapshot) (r : Store × Applied)
    → length r.0.held ≤ max_held
    → Bounded (ends snapshot r).0
unfolding ends reload_if_stale
ends-Bounded snapshot (s, a) h = finish-Bounded _ _ (settle-Bounded _ h)

pub load_bots-Bounded : (s : Store) (list : BotList) → Bounded s → Bounded (load_bots s list).0
unfolding load_bots
load_bots-Bounded s list b = ends-Bounded _ _ (
    omega (
      arith,
      ap length
          (replay-few apply_to_bots (λ t e. (apply_to_bots-SameTalk t e).loads) list.seq s.held _
            _).held,
      b.few,
    ))

pub load_routines-Bounded :
    (s : Store) (bot : BotId) (list : RoutineList)
    → Bounded s
    → Bounded (load_routines s bot list).0
unfolding load_routines
load_routines-Bounded s bot list b = ends-Bounded _ _ (
    omega (
      arith,
      ap length
          (replay-few apply_to_routines (λ t e. (apply_to_routines-SameTalk t e).loads) list.seq
            s.held _ _).held,
      b.few,
    ))

pub note_page-held :
    (s : Store) (bot : BotId) (n : Option MessageId) → SameLoads s (note_page s bot n)
unfolding note_page
note_page-held s bot none = ground arith
note_page-held s bot (some n) = ground arith

pub load_messages-Bounded :
    (s : Store) (bot : BotId) (page : MessagePage)
    → Bounded s
    → Bounded (load_messages s bot page).0
unfolding load_messages
load_messages-Bounded s bot page b = ends-Bounded _ _ (
    omega (
      arith,
      ap length
          (replay-few (λ t e. apply_to_conversation t bot e)
            (λ t e. apply_to_conversation-SameLoads t bot e) page.seq s.held _ _).held,
      ap length (note_page-held s bot (newest_of page.messages)).held,
      b.few,
    ))

pub load_older-Bounded :
    (s : Store) (bot : BotId) (before : MessageId) (page : MessagePage)
    → Bounded s
    → Bounded (load_older s bot before page).0
unfolding load_older
load_older-Bounded s bot before page b = elim (Option-cases (get bot s.conversations)) [
  | inl e ↦ rw (e, load_older) (finish-Bounded _ _ (settle-Bounded _ b.few))
  | inr (c, e) ↦ rw (e, load_older) (finish-Bounded _ _ (settle-Bounded _ b.few))
]

pub load_failed-Bounded :
    (s : Store) (snapshot : Snapshot) → Bounded s → Bounded (load_failed s snapshot)
unfolding load_failed settle
load_failed-Bounded s Snapshot.bots b = ground arith
load_failed-Bounded s (Snapshot.older bot) b = ground arith
load_failed-Bounded s _ b = ground arith

add-some : (snapshot : Snapshot) (xs : Snapshots) → is_empty (add snapshot xs) ≡ false
unfolding add contains
add-some snapshot [] = refl
add-some snapshot (x ∷ xs) = ground arith

add_all-some : (ys xs : Snapshots) → is_empty xs ≡ false → is_empty (add_all ys xs) ≡ false
unfolding add_all
add_all-some [] xs h = h
add_all-some (y ∷ ys) xs h = add_all-some ys (add y xs) (add-some y xs)

pub request-Bounded : (s : Store) (snapshot : Snapshot) → Bounded s → Bounded (request s snapshot).0
unfolding request
request-Bounded s snapshot b = ground (arith, add-some snapshot s.loading)

pub close_conversation-Bounded :
    (s : Store) (bot : BotId) → Bounded s → Bounded (close_conversation s bot)
unfolding close_conversation
close_conversation-Bounded s bot b = settle-Bounded _ b.few

pub close_routines-Bounded : (s : Store) (bot : BotId) → Bounded s → Bounded (close_routines s bot)
unfolding close_routines
close_routines-Bounded s bot b = settle-Bounded _ b.few

pub reload_all-Bounded : (s : Store) → Bounded s → Bounded (reload_all s).0
unfolding reload_all
reload_all-Bounded s b = ground (
  arith,
  add_all-some
      (map Snapshot.messages (keys s.conversations) ++ map Snapshot.routines (keys s.routines))
      (add Snapshot.bots s.loading),
  add-some Snapshot.bots s.loading,
)

older_of-Bounded : (s : Store) (bot : BotId) → Bounded s → Bounded (older_of s bot).0
unfolding older_of
older_of-Bounded s bot b = ground arith

start_older-Bounded :
    (s : Store) (bot : BotId) (cursor : Option MessageId)
    → Bounded s
    → Bounded (start_older s bot cursor)
unfolding start_older
start_older-Bounded s bot none b = load_failed-Bounded s (Snapshot.older bot) b
start_older-Bounded s bot (some c) b = ground (arith, add-some (Snapshot.older bot) s.loading)

pub request_older-Bounded : (s : Store) (bot : BotId) → Bounded s → Bounded (request_older s bot).0
unfolding request_older
request_older-Bounded s bot b =
    start_older-Bounded (older_of s bot).0 bot (older_of s bot).1 (older_of-Bounded s bot b)
