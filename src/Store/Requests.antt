-- ===== src/Store/Requests.antt =====
-- store.rs: what is asked for and let go: `request`, `request_older`, `reload_all`, `load_failed`,
-- `close_conversation`, `close_routines`, and the usage meter.
use bokkie.Prelude.{
  Bool, true, false, not, ◌&&◌, Option, none, some, [], ◌∷◌, ◌++◌, map, if◌then◌else◌, holds,
}
use bokkie.Protocol.Routines.{BotId, MessageId}
use bokkie.Protocol.Api.{Usage, Usage-discrete}
use bokkie.Maps.{get, insert, remove, keys, has_key}
use bokkie.Store.Snapshots.{Snapshot, Snapshots, contains, add, add_all, without, is_empty}
use bokkie.Store.State.{Store}

-- Nothing is held while nothing loads.
unfoldable pub settle : Store → Store
settle s = if is_empty s.loading then record s { held = [] } else s

unfoldable pub request : Store → Snapshot → Store × Bool
unfolding add
request s snapshot =
    (record s { loading = add snapshot s.loading }, not (contains s.loading snapshot))

unfoldable pub reload_all : Store → Store × Snapshots
unfolding add_all
reload_all s =
    let all =
      Snapshot.bots
      ∷ (map Snapshot.messages (keys s.conversations) ++ map Snapshot.routines (keys s.routines)) in
    (record s { loading = add_all all s.loading }, all)

-- The snapshot neither loads nor waits to be loaded again.
unfoldable pub forget : Store → Snapshot → Store
unfolding without
forget s snapshot = record s {
  loading = without snapshot s.loading;
  stale = without snapshot s.stale;
}

drop_cursor : Store → Snapshot → Store
drop_cursor s (Snapshot.older bot) = elim (get bot s.conversations) [
  | none ↦ s
  | some c ↦ record s {
    conversations = insert bot (record c { requested_older = none }) s.conversations;
  }
]
drop_cursor s _ = s

unfoldable pub load_failed : Store → Snapshot → Store
unfolding forget drop_cursor
load_failed s snapshot = settle (drop_cursor (forget s snapshot) snapshot)

unfoldable pub older_of : Store → BotId → Store × Option MessageId
older_of s bot = elim (get bot s.conversations) [
  | none ↦ (s, none)
  | some c ↦ (
    record s {
      conversations = insert bot (record c { requested_older = c.older }) s.conversations;
    },
    c.older,
  )
]

-- A cursor loads; where there is none the snapshot stops counting as loading.
unfoldable pub start_older : Store → BotId → Option MessageId → Store
unfolding add
start_older s bot none = load_failed s (Snapshot.older bot)
start_older s bot (some _) = record s { loading = add (Snapshot.older bot) s.loading }

unfoldable pub request_older : Store → BotId → Store × Option MessageId
request_older s bot = let (s', cursor) = older_of s bot in (start_older s' bot cursor, cursor)

unfoldable pub close_conversation : Store → BotId → Store
unfolding forget
close_conversation s bot =
    let closed = record s { conversations = remove bot s.conversations } in
    settle (forget (forget closed (Snapshot.messages bot)) (Snapshot.older bot))

unfoldable pub close_routines : Store → BotId → Store
unfolding forget
close_routines s bot =
    settle (forget (record s { routines = remove bot s.routines }) (Snapshot.routines bot))

unfoldable pub clear_error : Store → BotId → Store × Bool
clear_error s bot = (record s { errors = remove bot s.errors }, has_key bot s.errors)

unfoldable pub request_usage : Store → Store
request_usage s = record s { usage_event_seen = false }

same_usage : Option Usage → Usage → Bool
same_usage none u = false
same_usage (some held) u = holds (Usage-discrete held u)

-- The windows of a reply fill a meter whose events have none yet.
fill : Store → Option Usage → Usage → Store × Bool
fill s none u = (s, false)
fill s (some held) u =
    if is_empty held.subscription && not (is_empty u.subscription)
    then (record s { usage = some (record held { subscription = u.subscription }) }, true)
    else (s, false)

unfoldable pub load_usage : Store → Usage → Store × Bool
unfolding fill same_usage
load_usage s u =
    if s.usage_event_seen
    then fill s s.usage u
    else (if same_usage s.usage u then (s, false) else (record s { usage = some u }, true))
