-- ===== src/Tests/Deadlines.antt =====
-- A run that is past its deadline while other things happen.
use bokkie.Prelude.{◌⊎◌, ◌+◌, ◌*◌, ◌≡◌, refl, true, false, none, some, List, [], ◌∷◌, arith}
use bokkie.Maps.{get, insert}
use bokkie.Protocol.Routines.RunState.{interrupted}
use bokkie.Protocol.Chars.{codes, trim, trim_start, is_whitespace, is_control}
use bokkie.Schedule.{minute_ms, check}
use bokkie.Routines.Rows.{
  RunRow, Tables, pure, fail, reads, require, batch, effect, ◌>>=◌, to_routine, to_run,
}
use bokkie.Routines.Reasons
use bokkie.Routines.Checks.{check_text, check_name, check_prompt, has_newline, has_control}
use bokkie.Routines.Lookups.{
  is_waiting, is_running, is_active, is_finished, fresh, select, first, filtered, routine_of_user,
  routine, active_run, run_messages, messages_in, bot_of, count, list_for_user,
}
use bokkie.Routines.RoutineChanges.{new_row, is_taken, create}
use bokkie.Routines.Changes.{queued, insert_run, update_run, set_running, set_deadline_passed}
use bokkie.Routines.Runs.{emit_run}
use bokkie.Routines.Edits.{demand, within_limit, create_in, run_now}
use bokkie.Routines.Scheduler.{
  place, decide, end_missed, record_run, enqueue, queue, own_account, end_unstarted,
  enforce_deadline, enforce_started, enforce_since, emit_moved,
}
use bokkie.Routines.Starts.{mark_running, end_begun}
use bokkie.Routines.System.{Action, act, run_all, removes, left, empty}
use bokkie.Routines.Invariant.{run_all-empty-Sound}
use bokkie.Routines.Success.{Succeeds, Named}
use bokkie.Routines.Progress.{EndedIn}
use bokkie.Routines.Deadlines.{enforce_deadline-Over, interrupted_row}
use bokkie.Tests.Routines.{only_utc, news, waits, runs, owner}

-- A routine that is run now, and whose turn begins.
abbrev begun : Tables
begun =
    run_all only_utc
      (Action.others ((7, owner) ∷ []) ((3, record { owner = 7; refused = false }) ∷ []) [] [] []
        ∷ Action.creates 5 7 3 (record {
          name = news.name;
          prompt = news.prompt;
          schedule = news.schedule;
          push = news.push;
          paused = true;
        })
        ∷ Action.runs_now 6 7 3 1
        ∷ Action.begins 8 7 waits (codes "thread") (codes "turn") none
        ∷ [])
      empty

running_there : get 1 begun.runs ≡ some runs
unfolding run_all act empty get insert batch create_in ◌>>=◌ pure fail reads require effect demand
    check check_name check_prompt check_text trim trim_start is_whitespace is_control has_newline
    has_control own_account bot_of filtered count list_for_user select within_limit create new_row
    is_taken fresh to_routine run_now routine queue active_run first decide place enqueue record_run
    insert_run routine_of_user queued emit_run run_messages messages_in end_missed end_unstarted
    update_run is_waiting is_finished is_active to_run mark_running set_running emit_moved end_begun
    is_running
running_there = refl

-- While the run is past its deadline, nothing stops its turn, and the enforcement is repeated.
abbrev meanwhile : List Action
meanwhile = Action.others [] [] [] [] [] ∷ Action.enforces (20 * minute_ms + 5) runs ∷ []

news-Named :
    Named runs news
      (run_all only_utc meanwhile (left (enforce_deadline (20 * minute_ms) runs) begun))
unfolding run_all act empty get insert batch create_in ◌>>=◌ pure fail reads require effect demand
    check check_name check_prompt check_text trim trim_start is_whitespace is_control has_newline
    has_control own_account bot_of filtered count list_for_user select within_limit create new_row
    is_taken fresh to_routine run_now routine queue active_run first decide place enqueue record_run
    insert_run routine_of_user queued emit_run run_messages messages_in end_missed end_unstarted
    update_run is_waiting is_finished is_active to_run mark_running set_running emit_moved end_begun
    is_running enforce_deadline enforce_started enforce_since set_deadline_passed
news-Named = record { there = refl; same = refl; alone = refl }

enforce_deadline-Over_example :
    let t = left (enforce_deadline (20 * minute_ms) runs) begun in
    let u = run_all only_utc meanwhile t in
    (get 1 t.runs ≡ some (interrupted_row (20 * minute_ms) runs))
    × ((y : RunRow) × (get 1 u.runs ≡ some y)
        × ((is_finished y.state ≡ true)
            ⊎ ((is_running y.state ≡ true)
                × Succeeds
                    (EndedIn interrupted (some Reasons.deadline) 1)
                    (enforce_deadline (21 * minute_ms) y)
                    u)))
unfolding is_running removes
enforce_deadline-Over_example =
    enforce_deadline-Over only_utc meanwhile (20 * minute_ms) (21 * minute_ms) runs news 8 begun
      (run_all-empty-Sound only_utc _) running_there refl refl refl (omega arith) (refl, (refl, tt))
      news-Named (omega arith)
