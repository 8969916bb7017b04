-- ===== src/Store/Sessions.antt =====
-- store.rs as the application uses it: one call after another, in any order.
use bokkie.Prelude.{List, [], ◌∷◌, arith}
use bokkie.Protocol.Routines.{BotId, MessageId, RoutineId, Routine}
use bokkie.Protocol.Api.{Usage}
use bokkie.Protocol.Events.{EventEnvelope}
use bokkie.Store.Snapshots.{Snapshot}
use bokkie.Store.State.{Store, BotList, MessagePage, RoutineList, new}
use bokkie.Store.RoutineLists.{routine_changed, routine_deleted}
use bokkie.Store.Requests.{
  request, reload_all, load_failed, request_older, close_conversation, close_routines, clear_error,
  request_usage, load_usage,
}
use bokkie.Store.Loads.{load_bots, load_routines, load_messages, load_older}
use bokkie.Store.Apply.{apply}
use bokkie.Store.Holding.{
  Bounded, apply-Bounded, load_bots-Bounded, load_routines-Bounded, load_messages-Bounded,
  load_older-Bounded, load_failed-Bounded, request-Bounded, request_older-Bounded,
  close_conversation-Bounded, close_routines-Bounded, reload_all-Bounded,
}

pub data Call : Type 0 where
  applies : EventEnvelope → Call
  requests fails : Snapshot → Call
  requests_older : BotId → Call
  reloads_all : Call
  loads_bots : BotList → Call
  loads_messages : BotId → MessagePage → Call
  loads_older : BotId → MessageId → MessagePage → Call
  loads_routines : BotId → RoutineList → Call
  changes_routine : Routine → Call
  deletes_routine : BotId → RoutineId → Call
  closes_conversation closes_routines clears_error : BotId → Call
  requests_usage : Call
  loads_usage : Usage → Call

unfoldable pub perform : Store → Call → Store
perform s (Call.applies e) = (apply s e).0
perform s (Call.requests snapshot) = (request s snapshot).0
perform s (Call.fails snapshot) = load_failed s snapshot
perform s (Call.requests_older bot) = (request_older s bot).0
perform s Call.reloads_all = (reload_all s).0
perform s (Call.loads_bots list) = (load_bots s list).0
perform s (Call.loads_messages bot page) = (load_messages s bot page).0
perform s (Call.loads_older bot before page) = (load_older s bot before page).0
perform s (Call.loads_routines bot list) = (load_routines s bot list).0
perform s (Call.changes_routine r) = (routine_changed s r).0
perform s (Call.deletes_routine bot id) = (routine_deleted s bot id).0
perform s (Call.closes_conversation bot) = close_conversation s bot
perform s (Call.closes_routines bot) = close_routines s bot
perform s (Call.clears_error bot) = (clear_error s bot).0
perform s Call.requests_usage = request_usage s
perform s (Call.loads_usage u) = (load_usage s u).0

unfoldable pub perform_all : Store → List Call → Store
perform_all s [] = s
perform_all s (c ∷ cs) = perform_all (perform s c) cs

perform-Bounded : (s : Store) (c : Call) → Bounded s → Bounded (perform s c)
unfolding perform
perform-Bounded s (Call.applies e) b = apply-Bounded s e b
perform-Bounded s (Call.requests snapshot) b = request-Bounded s snapshot b
perform-Bounded s (Call.fails snapshot) b = load_failed-Bounded s snapshot b
perform-Bounded s (Call.requests_older bot) b = request_older-Bounded s bot b
perform-Bounded s Call.reloads_all b = reload_all-Bounded s b
perform-Bounded s (Call.loads_bots list) b = load_bots-Bounded s list b
perform-Bounded s (Call.loads_messages bot page) b = load_messages-Bounded s bot page b
perform-Bounded s (Call.loads_older bot before page) b = load_older-Bounded s bot before page b
perform-Bounded s (Call.loads_routines bot list) b = load_routines-Bounded s bot list b
perform-Bounded s (Call.changes_routine r) b = unfold routine_changed in ground arith
perform-Bounded s (Call.deletes_routine bot id) b = unfold routine_deleted in ground arith
perform-Bounded s (Call.closes_conversation bot) b = close_conversation-Bounded s bot b
perform-Bounded s (Call.closes_routines bot) b = close_routines-Bounded s bot b
perform-Bounded s (Call.clears_error bot) b = unfold clear_error in ground arith
perform-Bounded s Call.requests_usage b = unfold request_usage in ground arith
perform-Bounded s (Call.loads_usage u) b = unfold load_usage in ground arith

perform_all-Bounded : (s : Store) (cs : List Call) → Bounded s → Bounded (perform_all s cs)
unfolding perform_all
perform_all-Bounded s [] b = b
perform_all-Bounded s (c ∷ cs) b = perform_all-Bounded (perform s c) cs (perform-Bounded s c b)

new-Bounded : Bounded new
unfolding new
new-Bounded = ground arith

-- Whatever the application does with a new store, it holds events only while a snapshot loads, and
-- never more than `max_held`.
pub new-perform_all-Bounded : (cs : List Call) → Bounded (perform_all new cs)
new-perform_all-Bounded cs = perform_all-Bounded new cs new-Bounded
