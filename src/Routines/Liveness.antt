-- ===== src/Routines/Liveness.antt =====
-- No run waits or runs for ever: `attempt` and `enforce_deadline` of
-- crates/bokkie-gateway/src/routines/mod.rs, past their deadlines.
use bokkie.Prelude.{
  ◌≡◌, refl, sym, ap, ◌∙◌, subst, ◌+◌, ◌<◌, ◌≤◌, Bool, true, false, ◌&&◌, Option, none, some, arith,
  if◌then◌else◌,
}
use bokkie.Maps.{get}
use bokkie.Protocol.Routines.{Text, Timestamp, RoutineId, RoutineRunId, RunState}
use bokkie.Routines.Rows.{
  UserId, RoutineRow, RunRow, BotRow, Tables, M, pure, reads, ok, err, ◌>>=◌,
}
use bokkie.Routines.Reasons
use bokkie.Routines.Lookups.{is_waiting, is_finished, run, routine_of_user}
use bokkie.Routines.Starts.{
  RoutineStart, started, busy, signed_out, paused, not_waiting, failed, Runtime, Begun, Outside,
  begin_turn, with_turn, with_bot, is_schedule, with_routine_read, with_run_read, caught,
  start_routine, after_start,
}
use bokkie.Routines.Scheduler.{end_unstarted, past, reached}
use bokkie.Routines.Success.{Succeeds, bind-Succeeds, pure-Succeeds}
use bokkie.Routines.Progress.{Endable, EndedIn, end_unstarted-ends}

-- The start was put off or refused.
abbrev pub Unstarted : RoutineStart → Type 0
Unstarted (started turn) = ⊥
Unstarted not_waiting = ⊥
Unstarted _ = Unit

-- The code changes nothing, and answers that the start was put off or refused.
pub record Answers (m : M RoutineStart) (t : Tables) : Type 0 where
  pub start : RoutineStart
  pub equation : m t ≡ (ok start, t)
  pub unstarted : Unstarted start

pure-Answers : (s : RoutineStart) (t : Tables) → Unstarted s → Answers (pure s) t
unfolding pure
pure-Answers s t u = record { start = s; equation = refl; unstarted = u }

if-Answers :
    (b : Bool) {m n : M RoutineStart} {t : Tables}
    → (b ≡ true → Answers m t)
    → (b ≡ false → Answers n t)
    → Answers (if b then m else n) t
if-Answers true h k = h refl
if-Answers false h k = k refl

read-Answers :
    {A : Type 0} (f : Tables → A) (k : A → M RoutineStart) (t : Tables)
    → Answers (k (f t)) t
    → Answers (reads f >>= k) t
unfolding reads ◌>>=◌
read-Answers f k t h = record { start = h.start; equation = h.equation; unstarted = h.unstarted }

module _ (o : Outside) (why : Text) (broken : o.turn ≡ Begun.failed why) (user : UserId)
    (t : Tables) where
  with_turn-Answers : (r : RunRow) → Answers (with_turn o user r o.turn) t
  unfolding with_turn
  with_turn-Answers r =
      subst (λ b. Answers (with_turn o user r b) t) (sym broken) (pure-Answers (failed why) t tt)

  begin_turn-Answers : (r : RunRow) (x : Runtime) → Answers (begin_turn o user r x) t
  unfolding begin_turn
  begin_turn-Answers r Runtime.signed_out = pure-Answers _ t tt
  begin_turn-Answers r (Runtime.unavailable message) = pure-Answers _ t tt
  begin_turn-Answers r Runtime.ready =
      if-Answers o.reserved (λ h. with_turn-Answers r) λ h. pure-Answers _ t tt

  with_bot-Answers : (r : RunRow) (b : Option BotRow) → Answers (with_bot o user r b) t
  unfolding with_bot
  with_bot-Answers r none = pure-Answers _ t tt
  with_bot-Answers r (some bot) =
      if-Answers bot.refused (λ h. pure-Answers _ t tt)
        λ h.
          if-Answers o.working (λ h. pure-Answers _ t tt)
            λ h. if-Answers o.used_up (λ h. pure-Answers _ t tt) λ h. begin_turn-Answers r o.runtime

  with_routine_read-Answers :
      (r : RunRow) (q : RoutineRow) → Answers (with_routine_read o user r (some q)) t
  unfolding with_routine_read
  with_routine_read-Answers r q =
      if-Answers (q.paused && is_schedule r.trigger) (λ h. pure-Answers _ t tt)
        λ h. read-Answers _ _ t (with_bot-Answers r _)

  caught-Answers : (m : M RoutineStart) → Answers m t → Answers (caught o m) t
  unfolding caught
  caught-Answers m h = record {
    start = h.start;
    equation =
        ap (λ x. elim x.0 [ ok s ↦ (ok s, x.1) | err e ↦ (ok (failed (o.message e)), x.1) ])
          h.equation;
    unstarted = h.unstarted;
  }

  pub start_routine-Answers :
      (x : RunRow) (q : RoutineRow) (routine : RoutineId) (id : RoutineRunId)
      → run user id t ≡ some x
      → is_waiting x.state ≡ true
      → routine_of_user user routine t ≡ some q
      → Answers (start_routine o user routine id) t
  unfolding start_routine with_run_read
  start_routine-Answers x q routine id g w h =
      if-Answers o.send_locked (λ h. pure-Answers _ t tt)
        λ i. caught-Answers _ (
          read-Answers _ _ t (
            subst (λ r. Answers (with_run_read o user routine r) t) (sym g)
              (if-Answers (is_waiting x.state)
                (λ j. read-Answers _ _ t (
                  subst (λ p. Answers (with_routine_read o user x p) t) (sym h)
                    (with_routine_read-Answers x q)))
                λ j. cc (w, j))))

-- The run has ended.
abbrev pub Over : RoutineRunId → Tables → Type 0
Over id t = (y : RunRow) × (get id t.runs ≡ some y) × (is_finished y.state ≡ true)

ended-Over :
    (state : RunState) (reason : Option Text) (id : RoutineRunId) (t : Tables)
    → is_finished state ≡ true
    → EndedIn state reason id t
    → Over id t
ended-Over state reason id t f e = (e.0, e.1, ap is_finished e.2 ∙ f)

module _ (now : Timestamp) (r x : RunRow) (q : RoutineRow) (t : Tables)
    (e : Endable r.user r.id x q t) (w : is_waiting x.state ≡ true) where
  pub given_up :
      (state : RunState) (reason : Option Text)
      → is_finished state ≡ true
      → Succeeds (Over r.id) (end_unstarted now r state reason >>= λ _. pure false) t
  given_up state reason f =
      bind-Succeeds (end_unstarted-ends now state reason r x q t e w)
        λ a u h. pure-Succeeds false u (ended-Over state reason r.id u f h)

  pub after_start-Over :
      (s : RoutineStart)
      → Unstarted s
      → r.queued_at + Reasons.busy_wait_ms ≤ now
      → r.scheduled_for + Reasons.misfire_window_ms < now
      → Succeeds (Over r.id) (after_start now r s) t
  unfolding after_start is_finished
  after_start-Over (started turn) u b m = absurd u
  after_start-Over not_waiting u b m = absurd u
  after_start-Over paused u b m = given_up _ _ refl
  after_start-Over busy u b m =
      let c : reached Reasons.busy_wait_ms r.queued_at now ≡ true = ground arith in
      rw (c, after_start) (given_up RunState.skipped (some Reasons.busy) refl)
  after_start-Over signed_out u b m =
      let c : past Reasons.misfire_window_ms r.scheduled_for now ≡ true = ground arith in
      rw (c, after_start) (given_up RunState.missed (some Reasons.signed_out) refl)
  after_start-Over (failed reason) u b m = given_up _ _ refl
