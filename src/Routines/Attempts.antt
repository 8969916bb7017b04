-- ===== src/Routines/Attempts.antt =====
-- Attempts to start a run, crates/bokkie-gateway/src/routines/mod.rs and bots/service.rs, keep what
-- the kinds of write keep.
use bokkie.Prelude.{refl, inl, inr, false, ◌&&◌, Option, none, some}
use bokkie.Protocol.Routines.{Text, Timestamp, RoutineId, RoutineRunId}
use bokkie.Routines.Rows.{UserId, RoutineRow, RunRow, BotRow, Account, Tables, M}
use bokkie.Routines.Reasons
use bokkie.Routines.Lookups.{is_waiting, is_finished}
use bokkie.Routines.Runs.{TurnStatus}
use bokkie.Routines.Scheduler.{past, reached}
use bokkie.Routines.Starts.{
  RoutineStart, started, busy, signed_out, paused, not_waiting, failed, Runtime, Begun, Outside,
  end_begun, mark_running, begin_turn, with_turn, with_bot, is_schedule, with_routine_read,
  with_run_read, caught, start_routine, after_start, attempt_for, attempt_of, attempt,
}
use bokkie.Routines.Outcomes.{
  AnyResult, Keeps, Result-cases, returns-After, bind-Keeps, pure-Keeps, any_read-Keeps,
  batch-Keeps, if-Keeps,
}
use bokkie.Routines.Statements.{Stable, Both, set_running-Keeps}
use bokkie.Routines.Endings.{end_turn-Keeps}
use bokkie.Routines.Batches.{emit_moved-Keeps, end_unstarted-Keeps, wait-Keeps}

module _ {E : Tables → Type 0} (stable : Stable E) where
  end_begun-Keeps :
      (now : Timestamp) (user : UserId) (turn : Text) (o : Option TurnStatus)
      → Keeps (Both E) AnyResult (end_begun now user turn o)
  unfolding end_begun
  end_begun-Keeps now user turn none = pure-Keeps tt tt
  end_begun-Keeps now user turn (some status) = end_turn-Keeps stable now user turn status false

  pub mark_running-Keeps :
      (now : Timestamp) (user : UserId) (r : RunRow) (thread turn : Text) (o : Option TurnStatus)
      → Keeps (Both E) AnyResult (mark_running now user r thread turn o)
  unfolding mark_running
  mark_running-Keeps now user r thread turn o = batch-Keeps (
      bind-Keeps (set_running-Keeps stable now user r.id thread turn)
        λ s h. bind-Keeps (emit_moved-Keeps stable s) λ a h. end_begun-Keeps now user turn o)

  with_turn-Keeps :
      (o : Outside) (user : UserId) (r : RunRow) (b : Begun)
      → Keeps (Both E) AnyResult (with_turn o user r b)
  unfolding with_turn
  with_turn-Keeps o user r (Begun.failed message) = pure-Keeps _ tt
  with_turn-Keeps o user r (Begun.begun thread turn) =
      bind-Keeps (mark_running-Keeps o.started_at user r thread turn o.turn_end)
        λ a h. pure-Keeps _ tt

  begin_turn-Keeps :
      (o : Outside) (user : UserId) (r : RunRow) (x : Runtime)
      → Keeps (Both E) AnyResult (begin_turn o user r x)
  unfolding begin_turn
  begin_turn-Keeps o user r Runtime.signed_out = pure-Keeps _ tt
  begin_turn-Keeps o user r (Runtime.unavailable message) = pure-Keeps _ tt
  begin_turn-Keeps o user r Runtime.ready =
      if-Keeps o.reserved (λ h. with_turn-Keeps o user r o.turn) λ h. pure-Keeps _ tt

  with_bot-Keeps :
      (o : Outside) (user : UserId) (r : RunRow) (b : Option BotRow)
      → Keeps (Both E) AnyResult (with_bot o user r b)
  unfolding with_bot
  with_bot-Keeps o user r none = pure-Keeps _ tt
  with_bot-Keeps o user r (some bot) =
      if-Keeps bot.refused (λ h. pure-Keeps _ tt)
        λ h.
          if-Keeps o.working (λ h. pure-Keeps _ tt)
            λ h. if-Keeps o.used_up (λ h. pure-Keeps _ tt) λ h. begin_turn-Keeps o user r o.runtime

  with_routine_read-Keeps :
      (o : Outside) (user : UserId) (r : RunRow) (q : Option RoutineRow)
      → Keeps (Both E) AnyResult (with_routine_read o user r q)
  unfolding with_routine_read
  with_routine_read-Keeps o user r none = pure-Keeps _ tt
  with_routine_read-Keeps o user r (some q) =
      if-Keeps (q.paused && is_schedule r.trigger) (λ h. pure-Keeps _ tt)
        λ h. bind-Keeps (any_read-Keeps _) λ b h. with_bot-Keeps o user r b

  with_run_read-Keeps :
      (o : Outside) (user : UserId) (id : RoutineId) (r : Option RunRow)
      → Keeps (Both E) AnyResult (with_run_read o user id r)
  unfolding with_run_read
  with_run_read-Keeps o user id none = pure-Keeps _ tt
  with_run_read-Keeps o user id (some r) =
      if-Keeps (is_waiting r.state)
        (λ h. bind-Keeps (any_read-Keeps _) λ q h. with_routine_read-Keeps o user r q)
        λ h. pure-Keeps _ tt

  caught-Keeps :
      (o : Outside) {m : M RoutineStart}
      → Keeps (Both E) AnyResult m
      → Keeps (Both E) AnyResult (caught o m)
  unfolding caught
  caught-Keeps o {m} h t v = elim (Result-cases (m t).0) [
    | inl (a, e) ↦ returns-After (caught o m) t (m t).1 a (rw (e, caught) refl) (h t v).keeps tt
    | inr (x, e) ↦
        returns-After (caught o m) t (m t).1 (failed (o.message x)) (rw (e, caught) refl)
          (h t v).keeps tt
  ]

  pub start_routine-Keeps :
      (o : Outside) (user : UserId) (routine : RoutineId) (id : RoutineRunId)
      → Keeps (Both E) AnyResult (start_routine o user routine id)
  unfolding start_routine
  start_routine-Keeps o user routine id =
      if-Keeps o.send_locked (λ h. pure-Keeps _ tt)
        λ h.
          caught-Keeps o (bind-Keeps (any_read-Keeps _) λ r h. with_run_read-Keeps o user routine r)

  after_start-Keeps :
      (now : Timestamp) (r : RunRow) (s : RoutineStart)
      → Keeps (Both E) AnyResult (after_start now r s)
  unfolding after_start is_finished
  after_start-Keeps now r (started turn) = pure-Keeps _ tt
  after_start-Keeps now r not_waiting = pure-Keeps _ tt
  after_start-Keeps now r paused =
      bind-Keeps (end_unstarted-Keeps stable now r _ _ refl) λ a h. pure-Keeps _ tt
  after_start-Keeps now r busy =
      if-Keeps (reached Reasons.busy_wait_ms r.queued_at now)
        (λ h. bind-Keeps (end_unstarted-Keeps stable now r _ _ refl) λ a h. pure-Keeps _ tt)
        λ h. bind-Keeps (wait-Keeps stable r _ _) λ a h. pure-Keeps _ tt
  after_start-Keeps now r signed_out =
      if-Keeps (past Reasons.misfire_window_ms r.scheduled_for now)
        (λ h. bind-Keeps (end_unstarted-Keeps stable now r _ _ refl) λ a h. pure-Keeps _ tt)
        λ h. bind-Keeps (wait-Keeps stable r _ _) λ a h. pure-Keeps _ tt
  after_start-Keeps now r (failed reason) =
      bind-Keeps (end_unstarted-Keeps stable now r _ _ refl) λ a h. pure-Keeps _ tt

  attempt_for-Keeps :
      (now : Timestamp) (o : Outside) (r : RunRow) (q : Option RoutineRow)
      → Keeps (Both E) AnyResult (attempt_for now o r q)
  unfolding attempt_for
  attempt_for-Keeps now o r none = pure-Keeps _ tt
  attempt_for-Keeps now o r (some q) =
      bind-Keeps (start_routine-Keeps o r.user q.id r.id) λ s h. after_start-Keeps now r s

  attempt_of-Keeps :
      (now : Timestamp) (o : Outside) (r : RunRow) (a : Option Account)
      → Keeps (Both E) AnyResult (attempt_of now o r a)
  unfolding attempt_of is_finished
  attempt_of-Keeps now o r none = pure-Keeps _ tt
  attempt_of-Keeps now o r (some account) =
      if-Keeps account.disabled
        (λ h. bind-Keeps (end_unstarted-Keeps stable now r _ _ refl) λ a h. pure-Keeps _ tt)
        λ h. bind-Keeps (any_read-Keeps _) λ q h. attempt_for-Keeps now o r q

  pub attempt-Keeps :
      (now : Timestamp) (o : Outside) (r : RunRow) → Keeps (Both E) AnyResult (attempt now o r)
  unfolding attempt
  attempt-Keeps now o r = bind-Keeps (any_read-Keeps _) λ a h. attempt_of-Keeps now o r a
