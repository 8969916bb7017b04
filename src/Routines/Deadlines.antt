-- ===== src/Routines/Deadlines.antt =====
-- No run waits or runs past its deadlines: `attempt` and `enforce_deadline` of
-- crates/bokkie-gateway/src/routines/mod.rs.
use bokkie.Prelude.{
  List, All, ◌⊎◌, false, ◌≡◌, refl, sym, ap, ◌∙◌, subst, ◌+◌, ◌<◌, ◌≤◌, true, Bool-cases, none,
  some, ◌==◌, ==_iff, inl, inr, arith,
}
use bokkie.Maps.{get, get-insert}
use bokkie.Protocol.Routines.{Text, Timestamp}
use bokkie.Protocol.Routines.RunState.{interrupted, missed}
use bokkie.Routines.Rows.{RoutineRow, RunRow, Account, Tables, pure, reads, ok, err, ◌>>=◌}
use bokkie.Routines.Reasons
use bokkie.Routines.Lookups.{is_waiting, is_running, is_finished, filtered, run, routine_of_user}
use bokkie.Routines.Changes.{with_run, update_run, set_deadline_passed}
use bokkie.Routines.Scheduler.{reached, enforce_since, enforce_started, enforce_deadline}
use bokkie.Routines.Starts.{Begun, Outside, start_routine, attempt_for, attempt_of, attempt}
use bokkie.Routines.Success.{Succeeds, Named, bind-equal}
use bokkie.Routines.Progress.{Endable, EndedIn, end-ends}
use bokkie.Routines.Sound.{Sound, RunStep, running_state}
use bokkie.Routines.System.{Action, left, run_all, removes}
use bokkie.Routines.Marked.{Marked, MarkedRow, run_all-Marked}
use bokkie.Routines.Writes.{step-Sound}
use bokkie.Schedule.Zones.{Database}
use bokkie.Routines.Liveness.{Over, start_routine-Answers, after_start-Over, given_up, Answers}

-- Let a run wait, whose user's account is there and whose routine is there, the user's, and alone of
-- its Bot to have its name; and let no turn begin: the Bot is locked, busy, gone, refused, or out of
-- allowance, the app server is signed out or fails, or the routine is paused. An attempt, with the
-- run as it was once read, at 30 minutes or more after it was queued and more than 6 hours after it
-- was due, ends the run.
pub attempt-Over :
    (now : Timestamp) (o : Outside) (why : Text) (r x : RunRow) (q : RoutineRow) (a : Account)
    (t : Tables)
    → o.turn ≡ Begun.failed why
    → Endable r.user r.id x q t
    → is_waiting x.state ≡ true
    → get r.user t.accounts ≡ some a
    → x.routine ≡ r.routine
    → q.user ≡ r.user
    → r.queued_at + Reasons.busy_wait_ms ≤ now
    → r.scheduled_for + Reasons.misfire_window_ms < now
    → Succeeds (Over r.id) (attempt now o r) t
unfolding attempt attempt_of attempt_for reads is_finished run routine_of_user filtered
attempt-Over now o why r x q a t broken e w account same owner b m =
    bind-equal _ _ t (some a) t (rw account refl) (elim (Bool-cases a.disabled) [
      | inl d ↦ rw (d, attempt_of) (given_up now r x q t e w missed _ refl)
      | inr d ↦
          rw (d, attempt_of)
            (bind-equal _ _ t (some q) t (rw mine refl) (
              bind-equal _ _ t begun.start t begun.equation
                (after_start-Over now r x q t e w begun.start begun.unstarted b m)))
    ])
  where
    mine : routine_of_user r.user r.routine t ≡ some q
    mine =
        let g : get r.routine t.routines ≡ some q =
          subst (λ j. get j t.routines ≡ some q) same e.named.there in
        let u : (q.user == r.user) ≡ true = (==_iff q.user r.user).1 owner in
        rw (g, u, routine_of_user, filtered) refl

    current : run r.user r.id t ≡ some x
    current =
        let g = e.there in
        let u : (x.user == r.user) ≡ true = (==_iff x.user r.user).1 e.mine in
        rw (g, u, run, filtered) refl

    begun : Answers (start_routine o r.user q.id r.id) t
    begun =
        start_routine-Answers o why broken r.user t x q q.id r.id current w
          (subst (λ j. routine_of_user r.user j t ≡ some q) (sym (e.named.same ∙ same)) mine)

abbrev pub interrupted_row : Timestamp → RunRow → RunRow
interrupted_row now r = record r { deadline_passed_at = some now }

-- The first call marks the run.
marked :
    (now : Timestamp) (r : RunRow) (s : Timestamp) (t : Tables)
    → get r.id t.runs ≡ some r
    → is_running r.state ≡ true
    → r.started_at ≡ some s
    → r.deadline_passed_at ≡ none
    → s + Reasons.run_deadline_ms ≤ now
    → enforce_deadline now r t ≡ (ok tt, with_run r.id (interrupted_row now r) t)
unfolding enforce_deadline enforce_started enforce_since set_deadline_passed update_run ◌>>=◌ pure
marked now r s t g live began fresh l =
    let c : reached Reasons.run_deadline_ms s now ≡ true = ground arith in
    let u : (r.user == r.user) ≡ true = (==_iff r.user r.user).1 refl in
    let written : set_deadline_passed now r.user r.id t
        ≡ (ok (some (interrupted_row now r)), with_run r.id (interrupted_row now r) t) =
      rw (set_deadline_passed, update_run, g, u, live, fresh) refl in
    let since : enforce_since now r s none t ≡ (ok tt, with_run r.id (interrupted_row now r) t) =
      rw (c, enforce_since)
        (ap (λ x. elim x.0 [ ok a ↦ (ok tt, x.1) | err x' ↦ (err x', x.1) ]) written) in
    subst (λ o. enforce_started now r o t ≡ (ok tt, with_run r.id (interrupted_row now r) t))
      (sym began)
      (subst (λ o. enforce_since now r s o t ≡ (ok tt, with_run r.id (interrupted_row now r) t))
        (sym fresh) since)

-- The call that finds a marked run still running, a minute or more later, ends it.
marked-ends :
    (now later : Timestamp) (y : RunRow) (q : RoutineRow) (s : Timestamp) (t : Tables)
    → Endable y.user y.id y q t
    → is_running y.state ≡ true
    → y.started_at ≡ some s
    → y.deadline_passed_at ≡ some now
    → now + Reasons.interrupt_grace_ms ≤ later
    → Succeeds (EndedIn interrupted (some Reasons.deadline) y.id) (enforce_deadline later y) t
unfolding enforce_deadline enforce_started enforce_since
marked-ends now later y q s t e live began asked m =
    let c : reached Reasons.interrupt_grace_ms now later ≡ true = ground arith in
    let over = EndedIn interrupted (some Reasons.deadline) y.id in
    let since : Succeeds over (enforce_since later y s (some now)) t =
      rw (c, enforce_since)
        (end-ends later interrupted (some Reasons.deadline) y y q t e refl
          (running_state y.state live).0) in
    subst (λ o. Succeeds over (enforce_started later y o) t) (sym began)
      (subst (λ o. Succeeds over (enforce_since later y s o) t) (sym asked) since)

-- Of a running run in sound tables, the first time that its deadline is enforced 15 minutes or more
-- after it started, the run is marked. Then let anything happen in the gateway, in any order, that
-- removes no run, as turns that end or do not, messages, edits and restarts; and let the run's
-- routine still be there, alone of its Bot to have its name. Either the run has ended by then, or it
-- is still running, and the next time that its deadline is enforced, a minute or more after it was
-- marked, succeeds and ends it as interrupted for that reason.
pub enforce_deadline-Over :
    (db : Database) (l : List Action) (now later : Timestamp) (r : RunRow) (q : RoutineRow)
    (s : Timestamp) (t : Tables)
    → Sound t
    → get r.id t.runs ≡ some r
    → is_running r.state ≡ true
    → r.started_at ≡ some s
    → r.deadline_passed_at ≡ none
    → s + Reasons.run_deadline_ms ≤ now
    → All (λ a. removes a ≡ false) l
    → Named r q (run_all db l (left (enforce_deadline now r) t))
    → now + Reasons.interrupt_grace_ms ≤ later
    → (get r.id (left (enforce_deadline now r) t).runs ≡ some (interrupted_row now r))
      × ((y : RunRow) × (get r.id (run_all db l (left (enforce_deadline now r) t)).runs ≡ some y)
          × ((is_finished y.state ≡ true)
              ⊎ ((is_running y.state ≡ true)
                  × Succeeds
                      (EndedIn interrupted (some Reasons.deadline) r.id)
                      (enforce_deadline later y)
                      (run_all db l (left (enforce_deadline now r) t)))))
enforce_deadline-Over db l now later r q s t v g live began fresh late kept named m = (
  subst (λ z. get r.id z.runs ≡ some (interrupted_row now r)) (sym first) found,
  (
    after.1.0,
    after.1.1,
    elim after.1.2 [
      | inl f ↦ inl f
      | inr (runs, row) ↦ inr (runs, stopped after.1.0 after.1.1 runs row)
    ],
  ),
)
  where
    u : Tables
    u = with_run r.id (interrupted_row now r) t

    first : left (enforce_deadline now r) t ≡ u
    first = ap (λ x. x.1) (marked now r s t g live began fresh late)

    found : get r.id u.runs ≡ some (interrupted_row now r)
    found =
        get-insert r.id r.id (interrupted_row now r) t.runs ∙ rw ((==_iff r.id r.id).1 refl) refl

    w : Tables
    w = run_all db l (left (enforce_deadline now r) t)

    after : Sound w × Marked r.user r.routine s now r.id w
    after =
        run_all-Marked r.user r.routine s now r.id db l _
          (subst Sound (sym first) (step-Sound t r.id r _ v g (RunStep.stops now live fresh))) kept
          (subst (Marked r.user r.routine s now r.id) (sym first)
            (interrupted_row now r, found, inr (live, (refl, refl, began, refl))))

    stopped :
        (y : RunRow)
        → get r.id w.runs ≡ some y
        → is_running y.state ≡ true
        → MarkedRow r.user r.routine s now y
        → Succeeds (EndedIn interrupted (some Reasons.deadline) r.id) (enforce_deadline later y) w
    stopped y there runs row =
        let i : y.id ≡ r.id = (after.0.run_sound r.id y there).0 in
        subst
          (λ j.
            Succeeds (EndedIn interrupted (some Reasons.deadline) j) (enforce_deadline later y) w)
          i
          (marked-ends now later y q s w
            (record {
              there = subst (λ j. get j w.runs ≡ some y) (sym i) there;
              mine = refl;
              named = record {
                there = subst (λ j. get j w.routines ≡ some q) (sym row.1) named.there;
                same = named.same ∙ sym row.1;
                alone = named.alone;
              };
            })
            runs row.2 row.3 m)
