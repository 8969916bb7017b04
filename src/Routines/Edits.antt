-- ===== src/Routines/Edits.antt =====
-- crates/bokkie-gateway/src/routines/mod.rs: what a routine's owner does.
use bokkie.Prelude.{
  ℕ, Bool, true, false, not, ◌&&◌, Option, none, some, List, [], ◌∷◌, leb, if◌then◌else◌,
}
use bokkie.Maps.{get, insert}
use bokkie.Protocol.Routines.{Text, Timestamp, BotId, RoutineId, Schedule, RoutinePush, RunTrigger}
use bokkie.Protocol.Routines.RunState.{skipped}
use bokkie.Protocol.Events.Event.{routine_created, routine_updated, routine_deleted}
use bokkie.Schedule.{next_after, check}
use bokkie.Schedule.Zones.{Database, stored_zone, check_time_zone}
use bokkie.Routines.Rows.{
  UserId, RoutineRow, RunRow, M, pure, fail, reads, require, batch, effect, emit, to_routine, ok,
  err, ◌>>=◌, ◌>>◌, not_found, invalid, conflict, account_updated,
}
use bokkie.Routines.Reasons
use bokkie.Routines.Checks.{check_name, check_prompt}
use bokkie.Routines.Lookups.{routine, active_run, list_for_user, count, bot_of}
use bokkie.Routines.RoutineChanges.{create, save, delete}
use bokkie.Routines.Runs.{end_waiting}
use bokkie.Routines.Scheduler.{own_account, queue}

pub record CreateRoutineRequest : Type 0 where
  pub name : Text
  pub prompt : Text
  pub schedule : Schedule
  pub push : RoutinePush
  pub paused : Bool

pub record UpdateRoutineRequest : Type 0 where
  pub name : Option Text
  pub prompt : Option Text
  pub schedule : Option Schedule
  pub push : Option RoutinePush
  pub paused : Option Bool

unfoldable pub demand : Bool → M (Unit {0})
demand b = if b then pure tt else fail invalid

unfoldable pub within_limit : ℕ → M (Unit {0})
within_limit n = if leb Reasons.max_routines n then fail conflict else pure tt

unfoldable pub create_in :
    Database → Timestamp → UserId → BotId → CreateRoutineRequest → M RoutineRow
create_in db now user bot request = do
  name ← require invalid (check_name request.name)
  prompt ← require invalid (check_prompt request.prompt)
  demand (check request.schedule)
  account ← own_account user
  there ← reads (bot_of user bot)
  _ ← require not_found there
  n ← reads (count user)
  within_limit n
  q ← create now user (record {
    bot = bot;
    name = name;
    prompt = prompt;
    schedule = request.schedule;
    push = request.push;
    paused = request.paused;
    next_run_at =
        if request.paused
        then none
        else next_after (stored_zone db account.time_zone) request.schedule now;
  })
  emit user (routine_created (to_routine q))
  pure q

unfoldable pub accepted : Option Text → M (Option Text)
accepted none = fail invalid
accepted (some v) = pure (some v)

-- `Option::transpose` of a checked field.
unfoldable pub checked : (Text → Option Text) → Option Text → M (Option Text)
checked f none = pure none
checked f (some text) = accepted (f text)

unfoldable pub checked_schedule : Option Schedule → Bool
checked_schedule none = true
checked_schedule (some s) = check s

abbrev pub or_else {ℓ} : {A : Type ℓ} → Option A → A → A
or_else none a = a
or_else (some b) a = b

abbrev pub is_some {ℓ} : {A : Type ℓ} → Option A → Bool
is_some none = false
is_some (some _) = true

-- The routine with the request's fields, before it is scheduled.
unfoldable pub with_fields :
    (name prompt : Option Text) → UpdateRoutineRequest → RoutineRow → RoutineRow
with_fields name prompt request q = record q {
  name = or_else name q.name;
  prompt = or_else prompt q.prompt;
  push = or_else request.push q.push;
  schedule = or_else request.schedule q.schedule;
  paused = or_else request.paused q.paused;
}

-- A pause clears the next run; resuming, or a new schedule, schedules from now, and resuming clears
-- the failures.
unfoldable pub scheduled :
    (was_paused rescheduled : Bool) → Option Timestamp → RoutineRow → RoutineRow
scheduled was_paused rescheduled next q =
    if q.paused
    then record q { next_run_at = none }
    else if was_paused
    then record q { failures = 0; next_run_at = next }
    else if rescheduled
    then record q { next_run_at = next }
    else q

unfoldable pub skip_run : Timestamp → Option RunRow → M (Unit {0})
skip_run now none = pure tt
skip_run now (some r) = do _ ← end_waiting now r skipped (some Reasons.paused); pure tt

unfoldable pub skip_waiting : Bool → Timestamp → UserId → RoutineId → M (Unit {0})
skip_waiting false now user id = pure tt
skip_waiting true now user id = do active ← reads (active_run user id); skip_run now active

unfoldable pub update_in :
    Database → Timestamp → UserId → BotId → RoutineId → UpdateRoutineRequest → M RoutineRow
update_in db now user bot id request = do
  name ← checked check_name request.name
  prompt ← checked check_prompt request.prompt
  demand (checked_schedule request.schedule)
  account ← own_account user
  there ← reads (routine user bot id)
  old ← require not_found there
  let q = with_fields name prompt request old
  let next = next_after (stored_zone db account.time_zone) q.schedule now
  q' ← save now (scheduled old.paused (is_some request.schedule) next q)
  emit user (routine_updated (to_routine q'))
  skip_waiting (q'.paused && not old.paused) now user id
  pure q'

unfoldable pub deleted : Bool → M (Unit {0})
deleted existed = if existed then pure tt else fail not_found

unfoldable pub delete_in : UserId → BotId → RoutineId → M (Unit {0})
delete_in user bot id = do
  existed ← delete user bot id
  deleted existed
  emit user (routine_deleted bot id)

-- The batch of `run_now`. The start that follows is the scheduler's.
unfoldable pub run_now : Timestamp → UserId → BotId → RoutineId → M (Option RunRow)
run_now now user bot id = batch do
  there ← reads (routine user bot id)
  q ← require not_found there
  account ← own_account user
  queue now account q RunTrigger.manual now

-- `accounts::set_time_zone`.
unfoldable pub set_account_zone : UserId → Text → M (Unit {0})
set_account_zone user name t = elim (get user t.accounts) [
  | none ↦ (err not_found, t)
  | some a ↦ (ok tt, record t { accounts = insert user (record a { time_zone = name }) t.accounts })
]

unfoldable pub reschedule : Database → Timestamp → Text → RoutineRow → M (Unit {0})
reschedule db now name q = if q.paused then pure tt else do
  q' ← save now (record q { next_run_at = next_after (stored_zone db name) q.schedule now })
  emit q'.user (routine_updated (to_routine q'))

unfoldable pub reschedule_all : Database → Timestamp → Text → List RoutineRow → M (Unit {0})
reschedule_all db now name [] = pure tt
reschedule_all db now name (q ∷ qs) = do reschedule db now name q; reschedule_all db now name qs

unfoldable pub set_time_zone : Database → Timestamp → UserId → Text → M (Unit {0})
set_time_zone db now user name = do
  own ← require invalid (check_time_zone db name)
  batch do
    set_account_zone user own
    effect (account_updated user)
    qs ← reads (list_for_user user)
    reschedule_all db now own qs
