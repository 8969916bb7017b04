-- ===== src/Routines/Columns.antt =====
-- crates/bokkie-gateway/src/routines/store.rs: the names that the columns of a routine or a run have
-- for a state, a trigger, a reason to wait and a choice of pushes, and how they are read.
use bokkie.Prelude.{◌≡◌, refl, Option, none, some, if◌then◌else◌}
use mathlib.Core.Option
use bokkie.Protocol.Routines.{Text, RoutinePush, RunTrigger, RunState}
use bokkie.Protocol.Routines.RoutinePush.{every_run, notify_only}
use bokkie.Protocol.Routines.RunState.{
  waiting, running, succeeded, failed, missed, skipped, interrupted,
}
use bokkie.Protocol.Chars.{codes, same}
use bokkie.Routines.Rows.{Waiting}
use bokkie.Routines.Rows.Waiting.{busy, signed_out}

unfoldable pub push_name : RoutinePush → Text
push_name every_run = codes "every_run"
push_name notify_only = codes "notify_only"

unfoldable pub push_from : Text → RoutinePush
unfolding same
push_from name = if same name (codes "notify_only") then notify_only else every_run

unfoldable pub state_name : RunState → Text
state_name waiting = codes "waiting"
state_name running = codes "running"
state_name succeeded = codes "succeeded"
state_name failed = codes "failed"
state_name missed = codes "missed"
state_name skipped = codes "skipped"
state_name interrupted = codes "interrupted"

unfoldable pub state_from : Text → RunState
unfolding same
state_from name =
    if same name (codes "waiting")
    then waiting
    else if same name (codes "running")
    then running
    else if same name (codes "succeeded")
    then succeeded
    else if same name (codes "missed")
    then missed
    else if same name (codes "skipped")
    then skipped
    else if same name (codes "interrupted")
    then interrupted
    else failed

unfoldable pub trigger_name : RunTrigger → Text
trigger_name RunTrigger.schedule = codes "schedule"
trigger_name RunTrigger.manual = codes "manual"

-- From `run_from`, like `waiting_from`.
unfoldable pub trigger_from : Text → RunTrigger
unfolding same
trigger_from name = if same name (codes "manual") then RunTrigger.manual else RunTrigger.schedule

unfoldable pub waiting_name : Waiting → Text
waiting_name busy = codes "busy"
waiting_name signed_out = codes "signed_out"

unfoldable pub waiting_from : Option Text → Option Waiting
unfolding same
waiting_from none = none
waiting_from (some name) =
    if same name (codes "busy")
    then some busy
    else if same name (codes "signed_out")
    then some signed_out
    else none

state_read : (s : RunState) → state_from (state_name s) ≡ s
unfolding state_from state_name
state_read waiting = refl
state_read running = refl
state_read succeeded = refl
state_read failed = refl
state_read missed = refl
state_read skipped = refl
state_read interrupted = refl

trigger_read : (t : RunTrigger) → trigger_from (trigger_name t) ≡ t
unfolding trigger_from trigger_name
trigger_read RunTrigger.schedule = refl
trigger_read RunTrigger.manual = refl

waiting_read : (w : Option Waiting) → waiting_from (Option.map waiting_name w) ≡ w
unfolding waiting_from waiting_name
waiting_read none = refl
waiting_read (some busy) = refl
waiting_read (some signed_out) = refl

push_read : (p : RoutinePush) → push_from (push_name p) ≡ p
unfolding push_from push_name
push_read every_run = refl
push_read notify_only = refl

-- A run's state, its trigger and what it waits for, and a routine's choice of pushes, are read from
-- the names that they are stored under as they were.
pub columns_read :
    (s : RunState) (t : RunTrigger) (w : Option Waiting) (p : RoutinePush)
    → (state_from (state_name s) ≡ s)
      × (trigger_from (trigger_name t) ≡ t)
      × (waiting_from (Option.map waiting_name w) ≡ w)
      × (push_from (push_name p) ≡ p)
columns_read s t w p = (state_read s, trigger_read t, waiting_read w, push_read p)
