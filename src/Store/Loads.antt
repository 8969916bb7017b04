-- ===== src/Store/Loads.antt =====
-- store.rs: loading a snapshot, and replaying onto it the held events that follow it. The source
-- takes the held events out and puts each back as it is replayed; here they stay.
use bokkie.Prelude.{
  ℕ, max, Bool, true, false, not, ◌&&◌, ◌||◌, Option, none, some, List, [], ◌∷◌, map, ltb, ◌==◌,
  if◌then◌else◌,
}
use bokkie.Protocol.Routines.{BotId, MessageId, Routine}
use bokkie.Protocol.Api.{Bot, Message}
use bokkie.Protocol.Events.{Seq, Event, EventEnvelope}
use bokkie.Maps.{Map, get, insert, has_key, retain, extend}
use bokkie.Store.Snapshots.{
  Snapshot, Snapshots, Applied, contains, without, is_empty, changes, reloads, unchanged, merge,
}
use bokkie.Store.State.{Conversation, Store, BotList, MessagePage, RoutineList}
use bokkie.Store.Messages.{append_delta, apply_to_conversation}
use bokkie.Store.RoutineLists.{apply_to_routines}
use bokkie.Store.Bots.{apply_to_bots, note_newest}
use bokkie.Store.Requests.{settle}

-- `Store::finish`: the reloads that are not under way, which count as loading from now on.
unfoldable pub start_reloads : Snapshots → Snapshots → Snapshots × Snapshots
unfolding contains
start_reloads [] loading = ([], loading)
start_reloads (x ∷ xs) loading =
    let (rest, loading') = start_reloads xs (if contains loading x then loading else x ∷ loading) in
    (if contains loading x then rest else x ∷ rest, loading')

unfoldable pub finish : Store → Applied → Store × Applied
unfolding start_reloads
finish s a =
    let (reload, loading) = start_reloads a.reload s.loading in
    (record s { loading = loading }, record a { reload = reload })

unfoldable pub reload_if_stale : Store → Snapshot → Store × Applied
unfolding contains without
reload_if_stale s snapshot = (
  record s { stale = without snapshot s.stale },
  if contains s.stale snapshot then reloads snapshot else unchanged,
)

-- The held events after a snapshot's number, one after another.
unfoldable pub replay :
    (Store → EventEnvelope → Store × Applied)
    → Seq
    → List EventEnvelope
    → Store
    → Applied
    → Store × Applied
replay f seq [] s a = (s, a)
replay f seq (e ∷ es) s a =
    let (s', b) = f s e in
    replay f seq es (if ltb seq e.seq then s' else s) (if ltb seq e.seq then merge a b else a)

-- What every load ends with.
unfoldable pub ends : Snapshot → Store × Applied → Store × Applied
ends snapshot (s, a) = let (s', b) = reload_if_stale s snapshot in finish (settle s') (merge a b)

by_id : List Bot → List (BotId × Bot)
by_id bots = map (λ b. (b.id, b)) bots

unfoldable pub load_bots : Store → BotList → Store × Applied
unfolding by_id
load_bots s list =
    let bots = extend (by_id list.bots) [] in
    let loaded = record s {
      bots = bots;
      bots_seq = some list.seq;
      newest = retain (λ bot _. has_key bot bots) s.newest;
      errors = retain (λ bot _. has_key bot bots) s.errors;
      loading = without Snapshot.bots s.loading;
    } in
    ends Snapshot.bots (replay apply_to_bots list.seq s.held loaded (changes true))

routines_by_id : BotId → List Routine → List (ℕ × Routine)
routines_by_id bot [] = []
routines_by_id bot (r ∷ rs) =
    let rest = routines_by_id bot rs in if r.bot_id == bot then (r.id, r) ∷ rest else rest

unfoldable pub load_routines : Store → BotId → RoutineList → Store × Applied
unfolding routines_by_id
load_routines s bot list =
    let loaded = record s {
      routines =
          insert bot
            (record { seq = list.seq; routines = extend (routines_by_id bot list.routines) [] })
            s.routines;
      loading = without (Snapshot.routines bot) s.loading;
    } in
    ends (Snapshot.routines bot) (replay apply_to_routines list.seq s.held loaded (changes true))

-- The newest of the page's messages.
unfoldable pub newest_of : List Message → Option MessageId
newest_of [] = none
newest_of (m ∷ ms) = elim (newest_of ms) [ none ↦ some m.id | some n ↦ some (max m.id n) ]

unfoldable pub note_page : Store → BotId → Option MessageId → Store
unfolding note_newest
note_page s bot none = s
note_page s bot (some newest) = note_newest s bot newest

abbrev pub messages_by_id : List Message → List (MessageId × Message)
messages_by_id = map (λ m. (m.id, m))

-- The conversation as its newest page has it.
unfoldable pub conversation_of : MessagePage → Conversation
conversation_of page = record {
  seq = page.seq;
  messages = extend (messages_by_id page.messages) [];
  older = page.older;
  requested_older = none;
}

unfoldable pub load_messages : Store → BotId → MessagePage → Store × Applied
unfolding note_page newest_of
load_messages s bot page =
    let noted = note_page s bot (newest_of page.messages) in
    let loaded = record noted {
      conversations = insert bot (conversation_of page) noted.conversations;
      loading = without (Snapshot.messages bot) noted.loading;
    } in
    ends (Snapshot.messages bot)
      (replay (λ s' e. apply_to_conversation s' bot e) page.seq s.held loaded (changes true))

-- The page's messages that the conversation wants: its own, before the cursor, and not held.
unfoldable pub earlier_of :
    BotId → MessageId → Map Message → List Message → List (MessageId × Message)
earlier_of bot before held [] = []
earlier_of bot before held (m ∷ ms) =
    let rest = earlier_of bot before held ms in
    if m.bot_id == bot && ltb m.id before && not (has_key m.id held) then (m.id, m) ∷ rest else rest

unfoldable pub delta_earlier :
    MessageId → Map Message → Bool → Option (Message × Bool) → Map Message × Bool
delta_earlier id earlier complete none = (earlier, false)
delta_earlier id earlier complete (some (m, _)) = (insert id m earlier, complete)

-- One held event on the earlier messages, and whether they are still complete.
unfoldable pub replay_earlier : Event → Map Message → Bool → Map Message × Bool
unfolding delta_earlier append_delta
replay_earlier (Event.message_delta bot id offset delta) earlier complete = elim (get id earlier) [
  | none ↦ (earlier, complete)
  | some m ↦ delta_earlier id earlier complete (append_delta m offset delta)
]
replay_earlier (Event.message_completed m) earlier complete =
    (if has_key m.id earlier then insert m.id m earlier else earlier, complete)
replay_earlier _ earlier complete = (earlier, complete)

unfoldable pub replay_held : Seq → List EventEnvelope → Map Message → Bool → Map Message × Bool
unfolding replay_earlier
replay_held seq [] earlier complete = (earlier, complete)
replay_held seq (e ∷ es) earlier complete =
    let (earlier', complete') = replay_earlier e.event earlier complete in
    let next = ltb seq e.seq in
    replay_held seq es (if next then earlier' else earlier) (if next then complete' else complete)

abbrev same_cursor : Option MessageId → Option MessageId → Bool
same_cursor none none = true
same_cursor none (some b) = false
same_cursor (some a) none = false
same_cursor (some a) (some b) = a == b

-- The conversation with the page in front, where the page accounts for every held event.
unfoldable pub join_older :
    BotId → Conversation → MessagePage → Map Message → Bool → Conversation × Applied
join_older bot c page earlier complete =
    let asked = record c { requested_older = none } in
    if complete
    then (
      record asked { messages = extend earlier c.messages; older = page.older },
      changes (not (is_empty earlier) || not (same_cursor c.older page.older)),
    )
    else (asked, reloads (Snapshot.older bot))

unfoldable pub older_on :
    BotId
    → Conversation
    → MessageId
    → MessagePage
    → List EventEnvelope
    → Bool
    → Conversation × Applied
unfolding join_older earlier_of replay_held
older_on bot c before page held stale =
    let (earlier, complete) =
      replay_held page.seq held (extend (earlier_of bot before c.messages page.messages) [])
        (not stale) in
    if same_cursor c.requested_older (some before) && same_cursor c.older (some before)
    then join_older bot c page earlier complete
    else (c, unchanged)

unfoldable pub load_older : Store → BotId → MessageId → MessagePage → Store × Applied
load_older s bot before page =
    let snapshot = Snapshot.older bot in
    let stale = contains s.stale snapshot in
    let loaded = record s {
      loading = without snapshot s.loading;
      stale = without snapshot s.stale;
    } in
    elim (get bot s.conversations) [
      | none ↦ finish (settle loaded) unchanged
      | some c ↦
          let (c', applied) = older_on bot c before page s.held stale in
          finish (settle (record loaded { conversations = insert bot c' s.conversations })) applied
    ]
