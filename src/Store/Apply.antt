-- ===== src/Store/Apply.antt =====
-- store.rs: `Store::apply`, one event from the log.
use bokkie.Prelude.{
  Bool, true, false, not, ◌||◌, Option, none, some, [], ◌∷◌, ◌++◌, leb, if◌then◌else◌, length,
  holds,
}
use bokkie.Protocol.Api.{Usage, Usage-discrete}
use bokkie.Protocol.Events.{Event, EventEnvelope}
use bokkie.Store.Snapshots.{Applied, add_all, is_empty, unchanged, merge}
use bokkie.Store.State.{Store, max_held}
use bokkie.Store.Messages.{message_bot, apply_to_conversation}
use bokkie.Store.RoutineLists.{apply_to_routines}
use bokkie.Store.Bots.{apply_to_bots}
use bokkie.Store.Loads.{finish}

-- The events kept for the snapshots that load. Beyond `max_held` they are dropped, and what loads
-- has to be loaded again.
unfoldable pub hold : Store → EventEnvelope → Store
unfolding add_all
hold s e =
    if is_empty s.loading
    then s
    else (if leb max_held (length s.held)
        then record s { held = e ∷ []; stale = add_all s.loading s.stale }
        else record s { held = s.held ++ e ∷ [] })

unfoldable pub on_conversation : Store → EventEnvelope → Store × Applied
unfolding message_bot
on_conversation s e = elim (message_bot e.event) [
  | none ↦ (s, unchanged)
  | some bot ↦ apply_to_conversation s bot e
]

same_usage : Option Usage → Usage → Bool
same_usage none u = false
same_usage (some held) u = holds (Usage-discrete held u)

unfoldable pub on_usage : Event → Store → Applied → Store × Applied
unfolding same_usage
on_usage (Event.usage_updated u) s a = (
  record s { usage = some u; usage_event_seen = true },
  record a { changed = a.changed || not (same_usage s.usage u) },
)
on_usage _ s a = (s, a)

-- The event's part in each component, one after another.
unfoldable pub parts : Store → EventEnvelope → Store × Applied
parts s e =
    let (s₁, a₁) = on_conversation s e in
    let (s₂, a₂) = apply_to_bots s₁ e in
    let (s₃, a₃) = apply_to_routines s₂ e in on_usage e.event s₃ (merge (merge a₁ a₂) a₃)

unfoldable pub apply : Store → EventEnvelope → Store × Applied
apply s e = let (s', a) = parts (hold s e) e in finish s' a
