-- ===== src/Tests/EventLog.antt =====
-- The gateway's event log: a history with a failed commit, a prune and a restart.
use bokkie.Prelude.{◌+◌, ◌≡◌, refl, true, false, List, [], ◌∷◌, length, map}
use bokkie.Protocol.Events.{Event}
use bokkie.EventLog.Rows.{stored_last, insert_row}
use bokkie.EventLog.Log.{with_retention}
use bokkie.EventLog.System.{Action, run, step, empty}
use bokkie.EventLog.Invariant.{Inv}
use bokkie.EventLog.Append.{append, Appends, append-history}
use bokkie.EventLog.Guarantees.{history, run-empty-Inv}

abbrev reports : Action
reports = Action.emits 5 (Event.bot_error 7 []) true

abbrev busy : List Action
busy =
    Action.begins true
    ∷ reports
    ∷ reports
    ∷ Action.commits true
    ∷ Action.begins true
    ∷ reports
    ∷ Action.commits false
    ∷ Action.begins true
    ∷ reports
    ∷ Action.drops
    ∷ Action.restarts
    ∷ Action.begins true
    ∷ reports
    ∷ Action.emits 6 (Event.bot_error 8 []) false
    ∷ Action.commits true
    ∷ []

-- The number that was never committed is used again, and none is skipped.
busy_numbers : map (λ e. e.seq) (history 2 busy).live ≡ 1 ∷ 2 ∷ 3 ∷ []
unfolding run step empty insert_row stored_last
busy_numbers = refl

run-empty-Inv_example : Inv (with_retention 2) (run (with_retention 2) empty busy)
run-empty-Inv_example = run-empty-Inv 2 busy

append-history_example :
    Appends
      (history 2 busy).rows
      (history 2 busy).live
      (record { seq = length (history 2 busy).live + 1; at = 9; event = Event.bot_error 7 [] })
      true
      (append (with_retention 2) (history 2 busy) 9 (Event.bot_error 7 []) true true true)
append-history_example = append-history 2 busy 9 (Event.bot_error 7 []) true true true
