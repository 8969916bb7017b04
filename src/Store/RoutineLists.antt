-- ===== src/Store/RoutineLists.antt =====
-- store.rs: `Store::apply_to_routines`, `routine_changed` and `routine_deleted`.
use bokkie.Prelude.{
  Bool, true, false, not, ◌||◌, Option, none, some, ltb, leb, if◌then◌else◌, holds,
}
use bokkie.Protocol.Routines.{BotId, RoutineId, Routine, Routine-discrete}
use bokkie.Protocol.Events.{Event, EventEnvelope}
use bokkie.Maps.{get, insert, remove, has_key}
use bokkie.Store.Snapshots.{Applied, changes, unchanged}
use bokkie.Store.State.{Routines, Store}

abbrev same_routine : Option Routine → Routine → Bool
same_routine none r = false
same_routine (some held) r = holds (Routine-discrete held r)

put : Routines → Routine → Routines
put rs r = record rs { routines = insert r.id r rs.routines }

-- The match of `apply_to_routines`, on a list that the event follows.
unfoldable pub schedule_on : Routines → Event → Routines × Applied
unfolding put
schedule_on rs (Event.routine_created r) =
    (put rs r, changes (not (same_routine (get r.id rs.routines) r)))
schedule_on rs (Event.routine_updated r) =
    (put rs r, changes (not (same_routine (get r.id rs.routines) r)))
schedule_on rs (Event.routine_deleted b id) =
    (record rs { routines = remove id rs.routines }, changes (has_key id rs.routines))
schedule_on rs _ = (rs, unchanged)

unfoldable pub routine_bot : Event → Option BotId
routine_bot (Event.routine_created r) = some r.bot_id
routine_bot (Event.routine_updated r) = some r.bot_id
routine_bot (Event.routine_deleted b id) = some b
routine_bot _ = none

routines_after : Routines → EventEnvelope → Routines × Applied
unfolding schedule_on
routines_after rs e = if leb e.seq rs.seq then (rs, unchanged) else schedule_on rs e.event

routines_of : Store → EventEnvelope → BotId → Store × Applied
unfolding routines_after
routines_of s e bot = elim (get bot s.routines) [
  | none ↦ (s, unchanged)
  | some rs ↦
      let (rs', applied) = routines_after rs e in
      (record s { routines = insert bot rs' s.routines }, applied)
]

unfoldable pub apply_to_routines : Store → EventEnvelope → Store × Applied
unfolding routine_bot routines_of
apply_to_routines s e = elim (routine_bot e.event) [
  | none ↦ (s, unchanged)
  | some bot ↦ routines_of s e bot
]

-- A copy at least as new as the reply.
abbrev is_newer : Option Routine → Routine → Bool
is_newer none r = false
is_newer (some held) r = ltb r.updated_at held.updated_at || holds (Routine-discrete held r)

unfoldable pub routine_changed : Store → Routine → Store × Bool
unfolding put
routine_changed s r = elim (get r.bot_id s.routines) [
  | none ↦ (s, false)
  | some rs ↦
      if is_newer (get r.id rs.routines) r
      then (s, false)
      else (record s { routines = insert r.bot_id (put rs r) s.routines }, true)
]

unfoldable pub routine_deleted : Store → BotId → RoutineId → Store × Bool
routine_deleted s bot id = elim (get bot s.routines) [
  | none ↦ (s, false)
  | some rs ↦ (
    record s { routines = insert bot (record rs { routines = remove id rs.routines }) s.routines },
    has_key id rs.routines,
  )
]
