-- ===== src/Routines/Sound.antt =====
-- What is true of the tables of routines and runs between batches, and the ways a run's row
-- changes.
use bokkie.Prelude.{ℕ, ◌<◌, ◌≡◌, refl, true, false, Option, none, some, arith}
use bokkie.Maps.{get, Ascending}
use bokkie.Protocol.Routines.{Text, Timestamp, RoutineId, RoutineRunId, RunState}
use bokkie.Protocol.Routines.RunState.{running}
use bokkie.Routines.Rows.{RoutineRow, RunRow, Waiting, Tables}
use bokkie.Routines.Reasons.{failures_to_pause}
use bokkie.Routines.Lookups.{is_waiting, is_running, is_finished, is_active}

-- A paused routine has no next run, and one with three failures in a row is paused.
pub record RoutineSound (q : RoutineRow) : Type 0 where
  pub idle : q.paused ≡ true → q.next_run_at ≡ none
  pub able : q.paused ≡ false → q.failures < failures_to_pause

-- The columns of a run fit its state.
pub record RunSound (r : RunRow) : Type 0 where
  pub waits :
      is_waiting r.state ≡ true
      → (r.started_at ≡ none)
        × (r.finished_at ≡ none)
        × (r.turn_id ≡ none)
        × (r.deadline_passed_at ≡ none)
  pub runs :
      is_running r.state ≡ true
      → ((a : Timestamp) × (r.started_at ≡ some a))
        × ((x : Text) × (r.turn_id ≡ some x))
        × (r.finished_at ≡ none)
        × (r.waiting_for ≡ none)
  pub ended :
      is_finished r.state ≡ true
      → ((a : Timestamp) × (r.finished_at ≡ some a)) × (r.waiting_for ≡ none)

pub record Sound (t : Tables) : Type 0 where
  pub routines_ascend : Ascending t.routines
  pub runs_ascend : Ascending t.runs
  pub routine_sound :
      (i : RoutineId) (q : RoutineRow) → get i t.routines ≡ some q → (q.id ≡ i) × RoutineSound q
  pub run_sound : (i : RoutineRunId) (r : RunRow) → get i t.runs ≡ some r → (r.id ≡ i) × RunSound r
  -- A run is of a routine that is there, of the same user and Bot.
  pub owned :
      (i : RoutineRunId) (r : RunRow)
      → get i t.runs ≡ some r
      → (q : RoutineRow) × (get r.routine t.routines ≡ some q) × (q.user ≡ r.user) × (q.bot ≡ r.bot)
  -- A routine has one run at most that is waiting or running.
  pub single :
      (i j : RoutineRunId) (r s : RunRow)
      → get i t.runs ≡ some r
      → get j t.runs ≡ some s
      → r.routine ≡ s.routine
      → is_active r.state ≡ true
      → is_active s.state ≡ true
      → i ≡ j

-- The ways a run's row changes.
pub data RunStep (r : RunRow) : RunRow → Type 0 where
  waits :
      (w : Waiting) (reason : Text)
      → is_waiting r.state ≡ true
      → RunStep r (record r { waiting_for = some w; reason = some reason })
  moves :
      (at : Timestamp)
      → is_waiting r.state ≡ true
      → r.scheduled_for < at
      → RunStep r (record r { scheduled_for = at })
  starts :
      (now : Timestamp) (thread turn : Text)
      → is_waiting r.state ≡ true
      → RunStep r (record r {
        state = running;
        started_at = some now;
        thread_id = some thread;
        turn_id = some turn;
        waiting_for = none;
        reason = none;
      })
  ends :
      (now : Timestamp) (state : RunState) (reason : Option Text) (tokens : Option ℕ)
      → is_active r.state ≡ true
      → is_finished state ≡ true
      → RunStep r (record r {
        state = state;
        reason = reason;
        finished_at = some now;
        waiting_for = none;
        tokens = tokens;
      })
  stops :
      (now : Timestamp)
      → is_running r.state ≡ true
      → r.deadline_passed_at ≡ none
      → RunStep r (record r { deadline_passed_at = some now })

-- A step changes neither what a run is of nor when it was queued, and it keeps the row fit.
pub record Follows (r s : RunRow) : Type 0 where
  pub id : s.id ≡ r.id
  pub user : s.user ≡ r.user
  pub bot : s.bot ≡ r.bot
  pub routine : s.routine ≡ r.routine
  pub active : is_active r.state ≡ true
  pub sound : RunSound r → RunSound s

pub waiting_state :
    (s : RunState)
    → is_waiting s ≡ true
    → (is_active s ≡ true) × (is_running s ≡ false) × (is_finished s ≡ false)
unfolding is_waiting is_running is_finished is_active
waiting_state s h = ground arith

pub running_state :
    (s : RunState)
    → is_running s ≡ true
    → (is_active s ≡ true) × (is_waiting s ≡ false) × (is_finished s ≡ false)
unfolding is_waiting is_running is_finished is_active
running_state s h = ground arith

pub RunStep-Follows : (r s : RunRow) → RunStep r s → Follows r s
unfolding is_waiting is_running is_finished is_active
RunStep-Follows r _ (RunStep.waits w reason h) = record {
  id = refl;
  user = refl;
  bot = refl;
  routine = refl;
  active = (waiting_state r.state h).0;
  sound = λ v. record {
    waits = v.waits;
    runs = λ g. cc (g, (waiting_state r.state h).1);
    ended = λ g. cc (g, (waiting_state r.state h).2);
  };
}
RunStep-Follows r _ (RunStep.moves at h l) = record {
  id = refl;
  user = refl;
  bot = refl;
  routine = refl;
  active = (waiting_state r.state h).0;
  sound = λ v. record { waits = v.waits; runs = v.runs; ended = v.ended };
}
RunStep-Follows r _ (RunStep.starts now thread turn h) = record {
  id = refl;
  user = refl;
  bot = refl;
  routine = refl;
  active = (waiting_state r.state h).0;
  sound = λ v. record {
    waits = λ g. cc g;
    runs = λ g. ((now, refl), (turn, refl), (v.waits h).1, refl);
    ended = λ g. cc g;
  };
}
RunStep-Follows r _ (RunStep.ends now state reason tokens h f) = record {
  id = refl;
  user = refl;
  bot = refl;
  routine = refl;
  active = h;
  sound = λ v. record {
    waits = λ g. cc (f, (waiting_state state g).2);
    runs = λ g. cc (f, (running_state state g).2);
    ended = λ g. ((now, refl), refl);
  };
}
RunStep-Follows r _ (RunStep.stops now h fresh) = record {
  id = refl;
  user = refl;
  bot = refl;
  routine = refl;
  active = (running_state r.state h).0;
  sound = λ v. record {
    waits = λ g. cc (g, (running_state r.state h).1);
    runs = v.runs;
    ended = v.ended;
  };
}
