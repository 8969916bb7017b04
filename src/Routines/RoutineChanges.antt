-- ===== src/Routines/RoutineChanges.antt =====
-- crates/bokkie-gateway/src/routines/store.rs: the statements that change routines.
use bokkie.Prelude.{
  ◌+◌, ◌-◌, min, ◌^◌, Bool, true, false, not, ◌&&◌, ◌||◌, Option, none, some, [], ◌∷◌, leb, ltb,
  ◌==◌, if◌then◌else◌,
}
use bokkie.Maps.{Map, get, insert, remove, retain}
use bokkie.Protocol.Routines.{Text, Timestamp, BotId, RoutineId, Schedule, RoutinePush}
use bokkie.Routines.Rows.{
  UserId, RoutineRow, RunRow, Tables, M, pure, ok, err, not_found, conflict, ◌>>=◌,
}
use bokkie.Routines.Reasons.{failures_to_pause}
use bokkie.Routines.Checks.{same_name}
use bokkie.Routines.Lookups.{fresh, routine_of_user, bot_of}

-- Whether the unique index refuses a routine's name: another routine of the Bot has it.
unfoldable pub is_taken : RoutineId → BotId → Text → Map RoutineRow → Bool
unfolding same_name
is_taken id bot name [] = false
is_taken id bot name ((_, q) ∷ m) =
    (not (q.id == id) && (q.bot == bot) && same_name q.name name) || is_taken id bot name m

-- `NewRoutine`.
pub record NewRoutine : Type 0 where
  pub bot : BotId
  pub name : Text
  pub prompt : Text
  pub schedule : Schedule
  pub push : RoutinePush
  pub paused : Bool
  pub next_run_at : Option Timestamp

unfoldable pub new_row : Timestamp → UserId → NewRoutine → RoutineId → RoutineRow
new_row now user new id = record {
  id = id;
  user = user;
  bot = new.bot;
  name = new.name;
  prompt = new.prompt;
  schedule = new.schedule;
  push = new.push;
  paused = new.paused;
  failures = 0;
  next_run_at = new.next_run_at;
  created_at = now;
  updated_at = now;
}

abbrev pub with_routine : RoutineId → RoutineRow → Tables → Tables
with_routine id q t = record t { routines = insert id q t.routines }

unfoldable pub create : Timestamp → UserId → NewRoutine → M RoutineRow
unfolding bot_of is_taken fresh new_row
create now user new t =
    let q = new_row now user new (fresh t.routines) in
    elim (bot_of user new.bot t) [
      | none ↦ (err not_found, t)
      | some _ ↦
          if is_taken q.id q.bot q.name t.routines
          then (err conflict, t)
          else (ok q, with_routine q.id q t)
    ]

-- `UPDATE routines`, which leaves a routine's owner, Bot and creation as they are.
unfoldable pub saved : Timestamp → RoutineRow → RoutineRow → RoutineRow
saved now new old = record old {
  name = new.name;
  prompt = new.prompt;
  schedule = new.schedule;
  push = new.push;
  paused = new.paused;
  failures = new.failures;
  next_run_at = new.next_run_at;
  updated_at = now;
}

unfoldable pub save : Timestamp → RoutineRow → M RoutineRow
unfolding is_taken saved
save now q t = elim (get q.id t.routines) [
  | none ↦ (err not_found, t)
  | some old ↦
      let new = saved now q old in
      if (old.bot == q.bot) && (old.user == q.user)
      then (if is_taken q.id q.bot q.name t.routines
          then (err conflict, t)
          else (ok new, with_routine q.id new t))
      else (err not_found, t)
]

-- `delete`, with the runs, which the foreign key deletes too.
unfoldable pub delete : UserId → BotId → RoutineId → M Bool
delete user bot id t = elim (get id t.routines) [
  | none ↦ (ok false, t)
  | some q ↦
      if (q.bot == bot) && (q.user == user)
      then (
        ok true,
        record t {
          routines = remove id t.routines;
          runs = retain (λ _ r. not (r.routine == id)) t.runs;
        },
      )
      else (ok false, t)
]

-- What `count_outcome` makes of a routine, and whether that pauses it; `none` if nothing changes.
unfoldable pub counted : Bool → RoutineRow → Option (RoutineRow × Bool)
counted true q =
    let failures = min (q.failures + 1) (2 ^ 32 - 1) in
    if leb failures_to_pause failures && not q.paused
    then some (record q { failures = failures; paused = true; next_run_at = none }, true)
    else some (record q { failures = failures }, false)
counted false q = if ltb 0 q.failures then some (record q { failures = 0 }, false) else none

unfoldable pub save_counted :
    Timestamp → Option (RoutineRow × Bool) → M (Option (RoutineRow × Bool))
save_counted now none = pure none
save_counted now (some (q, paused)) = do q' ← save now q; pure (some (q', paused))

unfoldable pub count_outcome : Timestamp → RunRow → Bool → M (Option (RoutineRow × Bool))
count_outcome now r failed t = elim (routine_of_user r.user r.routine t) [
  | none ↦ (ok none, t)
  | some q ↦ save_counted now (counted failed q) t
]
