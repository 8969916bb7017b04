-- ===== src/Routines/Endings.antt =====
-- The ends of runs, crates/bokkie-gateway/src/routines/mod.rs, keep what the kinds of write keep.
use bokkie.Prelude.{◌≡◌, Bool, true, false, arith, Option, none, some, List, [], ◌∷◌}
use bokkie.Protocol.Routines.{Text, Timestamp, BotId, RunState}
use bokkie.Routines.Rows.{UserId, RoutineRow, RunRow, Tables}
use bokkie.Routines.Lookups.{is_finished, is_running}
use bokkie.Routines.Runs.{
  TurnStatus, emit_run, outcome, announce_counted, count_end, announce_end, announce_ended, end_run,
  end_waiting, turn_outcome, end_run_of_turn, end_turn, end_all, end_running,
}
use bokkie.Routines.Outcomes.{AnyResult, Keeps, bind-Keeps, pure-Keeps, any_read-Keeps, if-Keeps}
use bokkie.Routines.Statements.{Stable, Both, effect-Keeps, finish-Keeps, finish_waiting-Keeps}
use bokkie.Routines.RoutineStatements.{count_outcome-Keeps}

turn_outcome-finished :
    (r : RunRow) (status : TurnStatus) (out : Bool)
    → is_finished (turn_outcome r status out).0 ≡ true
unfolding turn_outcome is_finished
turn_outcome-finished r status out = ground arith

module _ {E : Tables → Type 0} (stable : Stable E) where
  pub emit_run-Keeps : (r : RunRow) → Keeps (Both E) AnyResult (emit_run r)
  unfolding emit_run
  emit_run-Keeps r = bind-Keeps (any_read-Keeps _) λ ids q. effect-Keeps stable _

  announce_counted-Keeps :
      (user : UserId) (o : Option (RoutineRow × Bool))
      → Keeps (Both E) AnyResult (announce_counted user o)
  unfolding announce_counted
  announce_counted-Keeps user none = pure-Keeps false tt
  announce_counted-Keeps user (some (q, paused)) =
      bind-Keeps (effect-Keeps stable _) λ a h. pure-Keeps paused tt

  count_end-Keeps :
      (now : Timestamp) (ended : RunRow) (o : Option Bool)
      → Keeps (Both E) AnyResult (count_end now ended o)
  unfolding count_end
  count_end-Keeps now ended none = pure-Keeps false tt
  count_end-Keeps now ended (some is_bad) =
      bind-Keeps (count_outcome-Keeps stable now ended is_bad)
        λ c h. announce_counted-Keeps ended.user c

  announce_end-Keeps :
      (now : Timestamp) (ended : RunRow) (state : RunState)
      → Keeps (Both E) AnyResult (announce_end now ended state)
  unfolding announce_end
  announce_end-Keeps now ended state = bind-Keeps (emit_run-Keeps ended) λ a h.
      bind-Keeps (count_end-Keeps now ended (outcome ended state)) λ p i. effect-Keeps stable _

  announce_ended-Keeps :
      (now : Timestamp) (state : RunState) (o : Option RunRow)
      → Keeps (Both E) AnyResult (announce_ended now state o)
  unfolding announce_ended
  announce_ended-Keeps now state none = pure-Keeps none tt
  announce_ended-Keeps now state (some r) =
      bind-Keeps (announce_end-Keeps now r state) λ a h. pure-Keeps (some r) tt

  pub end_run-Keeps :
      (now : Timestamp) (r : RunRow) (state : RunState) (reason : Option Text)
      → is_finished state ≡ true
      → Keeps (Both E) AnyResult (end_run now r state reason)
  unfolding end_run
  end_run-Keeps now r state reason f =
      bind-Keeps (finish-Keeps stable now r.user r.id state reason f)
        λ o h. announce_ended-Keeps now state o

  pub end_waiting-Keeps :
      (now : Timestamp) (r : RunRow) (state : RunState) (reason : Option Text)
      → is_finished state ≡ true
      → Keeps (Both E) AnyResult (end_waiting now r state reason)
  unfolding end_waiting
  end_waiting-Keeps now r state reason f =
      bind-Keeps (finish_waiting-Keeps stable now r.user r.id state reason f)
        λ o h. announce_ended-Keeps now state o

  end_run_of_turn-Keeps :
      (now : Timestamp) (status : TurnStatus) (out : Bool) (o : Option RunRow)
      → Keeps (Both E) AnyResult (end_run_of_turn now status out o)
  unfolding end_run_of_turn
  end_run_of_turn-Keeps now status out none = pure-Keeps tt tt
  end_run_of_turn-Keeps now status out (some r) =
      if-Keeps (is_running r.state)
        (λ h.
          bind-Keeps (end_run-Keeps now r _ _ (turn_outcome-finished r status out))
            λ a q. pure-Keeps tt tt)
        (λ h. pure-Keeps tt tt)

  pub end_turn-Keeps :
      (now : Timestamp) (user : UserId) (turn : Text) (status : TurnStatus) (out : Bool)
      → Keeps (Both E) AnyResult (end_turn now user turn status out)
  unfolding end_turn
  end_turn-Keeps now user turn status out =
      bind-Keeps (any_read-Keeps _) λ r q. end_run_of_turn-Keeps now status out r

  end_all-Keeps :
      (now : Timestamp) (state : RunState) (reason : Text) (rs : List RunRow)
      → is_finished state ≡ true
      → Keeps (Both E) AnyResult (end_all now state reason rs)
  unfolding end_all
  end_all-Keeps now state reason [] f = pure-Keeps tt tt
  end_all-Keeps now state reason (r ∷ rs) f =
      bind-Keeps (end_run-Keeps now r state (some reason) f)
        λ a h. end_all-Keeps now state reason rs f

  pub end_running-Keeps :
      (now : Timestamp) (user : UserId) (bot : Option BotId) (state : RunState) (reason : Text)
      → is_finished state ≡ true
      → Keeps (Both E) AnyResult (end_running now user bot state reason)
  unfolding end_running
  end_running-Keeps now user bot state reason f =
      bind-Keeps (any_read-Keeps _)
        λ d q. bind-Keeps (any_read-Keeps _) λ rs q. end_all-Keeps now state _ rs f
