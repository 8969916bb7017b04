-- ===== src/Tests/Routines.antt =====
-- A routine whose run waits for a Bot that is never free, and one that is run now and skipped.
use mathlib.Core.Option
use bokkie.Prelude.{◌+◌, ◌*◌, ◌≡◌, ◌↔◌, refl, true, false, none, some, List, [], ◌∷◌, arith}
use bokkie.Prelude.Int.{pos}
use bokkie.Maps.{get, insert}
use bokkie.Protocol.Routines.{Schedule, RoutinePush, RunTrigger}
use bokkie.Protocol.Routines.Weekday.{mon}
use bokkie.Protocol.Routines.RunState.{waiting, running, interrupted, skipped}
use bokkie.Protocol.Chars.{codes, trim, trim_start, is_whitespace, is_control}
use bokkie.Schedule.{Zone, unambiguous, day_ms, minute_ms, hour_ms, check}
use bokkie.Schedule.Zones.{Database}
use bokkie.Routines.Rows.{
  RoutineRow, RunRow, Account, Waiting, Tables, pure, fail, reads, require, batch, effect, ◌>>=◌,
  to_routine, to_run,
}
use bokkie.Routines.Checks.{check_text, check_name, check_prompt, has_newline, has_control}
use bokkie.Routines.Lookups.{
  is_waiting, is_active, is_finished, fresh, select, first, filtered, routine_of_user, routine,
  active_run, run_messages, messages_in, tokens_of, bot_of, count, list_for_user,
}
use bokkie.Routines.RoutineChanges.{new_row, is_taken, create}
use bokkie.Routines.Changes.{queued, insert_run, update_run, finish_from, finish_waiting}
use bokkie.Routines.Runs.{emit_run, outcome, count_end, announce_end, announce_ended, end_waiting}
use bokkie.Routines.Edits.{demand, within_limit, create_in, run_now}
use bokkie.Routines.Scheduler.{
  place, decide, end_missed, record_run, enqueue, queue, own_account, end_unstarted,
}
use bokkie.Routines.Starts.{Runtime, Begun, Outside, attempt}
use bokkie.Routines.System.{Action, act, run_all, removes, empty}
use bokkie.Routines.Sound.{Sound}
use bokkie.Routines.Invariant.{run_all-empty-Sound, run_all-finished}
use bokkie.Routines.Columns.{
  state_from, state_name, trigger_from, trigger_name, waiting_from, waiting_name, push_from,
  push_name, columns_read,
}
use bokkie.Routines.Failures.{after_outcomes, Streak, after_outcomes-Streak}
use bokkie.Routines.Success.{Succeeds}
use bokkie.Routines.Progress.{Endable}
use bokkie.Routines.Liveness.{Over}
use bokkie.Routines.Deadlines.{attempt-Over}

abbrev utc : Zone
utc = record {
  last_date = 3000000;
  iana_name = some (codes "UTC");
  weekday = λ d. mon;
  offset = λ d m. unambiguous (pos 0);
  to_timestamp = λ o d m. some (d * day_ms + m * minute_ms);
  following = λ t. none;
  local_date = λ t. some 0;
}

abbrev pub only_utc : Database
only_utc = record { find = λ name. none; utc = utc }

abbrev pub news : RoutineRow
news = record {
  id = 1;
  user = 7;
  bot = 3;
  name = codes "News";
  prompt = codes "What is new?";
  schedule = Schedule.daily (record { hour = 7; minute = 0 });
  push = RoutinePush.every_run;
  paused = true;
  failures = 0;
  next_run_at = none;
  created_at = 5;
  updated_at = 5;
}

abbrev pub waits : RunRow
waits = record {
  id = 1;
  user = 7;
  bot = 3;
  routine = 1;
  trigger = RunTrigger.manual;
  scheduled_for = 6;
  queued_at = 6;
  started_at = none;
  finished_at = none;
  state = waiting;
  reason = none;
  waiting_for = none;
  thread_id = none;
  turn_id = none;
  deadline_passed_at = none;
  tokens = none;
}

abbrev pub runs : RunRow
runs = record waits {
  state = running;
  started_at = some 8;
  thread_id = some (codes "thread");
  turn_id = some (codes "turn");
}

abbrev pub owner : Account
owner = record { disabled = false; time_zone = codes "UTC" }

abbrev one_run : RunRow → Tables
one_run r = record {
  accounts = (7, owner) ∷ [];
  bots = (3, record { owner = 7; refused = false }) ∷ [];
  routines = (1, news) ∷ [];
  runs = (1, r) ∷ [];
  messages = [];
  tokens = [];
  effects = [];
}

abbrev never_free : Outside
never_free = record {
  send_locked = false;
  working = true;
  used_up = false;
  runtime = Runtime.ready;
  reserved = true;
  turn = Begun.failed [];
  started_at = 9;
  turn_end = none;
  no_bot = [];
  refused = [];
  limit_reached = [];
  message = λ e. [];
}

one-Endable : (r : RunRow) → r.user ≡ 7 → r.routine ≡ 1 → Endable 7 1 r news (one_run r)
unfolding get is_taken
one-Endable r u q = record {
  there = refl;
  mine = u;
  named = record { there = rw q refl; same = rw q refl; alone = refl };
}

attempt-Over_example : Succeeds (Over 1) (attempt (7 * hour_ms) never_free waits) (one_run waits)
unfolding get is_waiting
attempt-Over_example =
    attempt-Over (7 * hour_ms) never_free [] waits waits news owner (one_run waits) refl
      (one-Endable waits refl refl) refl refl refl refl (omega arith) (omega arith)

after_outcomes-Streak_example :
    ((after_outcomes (false ∷ true ∷ true ∷ true ∷ []) (record news { paused = false })).paused
      ≡ true)
    ↔ Streak (false ∷ true ∷ true ∷ true ∷ [])
after_outcomes-Streak_example =
    after_outcomes-Streak (false ∷ true ∷ true ∷ true ∷ []) (record news { paused = false }) refl
      refl

abbrev history : List Action
history =
    Action.others ((7, owner) ∷ []) ((3, record { owner = 7; refused = false }) ∷ []) [] [] []
    ∷ Action.creates 5 7 3 (record {
      name = news.name;
      prompt = news.prompt;
      schedule = news.schedule;
      push = news.push;
      paused = true;
    })
    ∷ Action.runs_now 6 7 3 1
    ∷ Action.skips 8 waits []
    ∷ []

abbrev skipped_run : RunRow
skipped_run = record waits { state = skipped; reason = some []; finished_at = some 8 }

columns_read_example :
    (state_from (state_name interrupted) ≡ interrupted)
    × (trigger_from (trigger_name RunTrigger.manual) ≡ RunTrigger.manual)
    × (waiting_from (Option.map waiting_name (some Waiting.busy)) ≡ some Waiting.busy)
    × (push_from (push_name RoutinePush.notify_only) ≡ RoutinePush.notify_only)
columns_read_example =
    columns_read interrupted RunTrigger.manual (some Waiting.busy) RoutinePush.notify_only

run_all-empty-Sound_example : Sound (run_all only_utc history empty)
run_all-empty-Sound_example = run_all-empty-Sound only_utc history

skipped_there : get 1 (run_all only_utc history empty).runs ≡ some skipped_run
unfolding run_all act empty get insert batch create_in ◌>>=◌ pure fail reads require effect demand
    check check_name check_prompt check_text trim trim_start is_whitespace is_control has_newline
    has_control own_account bot_of filtered count list_for_user select within_limit create new_row
    is_taken fresh to_routine run_now routine queue active_run first decide place enqueue record_run
    insert_run routine_of_user queued emit_run run_messages messages_in end_missed end_unstarted
    end_waiting finish_waiting finish_from update_run tokens_of announce_ended announce_end outcome
    count_end is_waiting is_finished is_active to_run
skipped_there = refl

run_all-finished_example :
    get 1
      (run_all only_utc
        (Action.recovers 9 ∷ Action.skips 9 waits [] ∷ [])
        (run_all only_utc history empty)).runs
    ≡ some skipped_run
unfolding removes is_finished
run_all-finished_example =
    run_all-finished only_utc (Action.recovers 9 ∷ Action.skips 9 waits [] ∷ [])
      (run_all only_utc history empty) 1 skipped_run (run_all-empty-Sound only_utc history)
      (refl, (refl, tt)) skipped_there refl
