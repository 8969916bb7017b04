-- ===== src/Routines/Batches.antt =====
-- The scheduler's batches, crates/bokkie-gateway/src/routines/mod.rs, keep what the kinds of write
-- keep.
use bokkie.Prelude.{
  ◌≡◌, refl, ◌⊎◌, inl, inr, true, false, not, ◌&&◌, Bool-cases, Option, none, some, Option-cases,
  List, [], ◌∷◌, arith, leb,
}
use bokkie.Protocol.Routines.{Text, Timestamp, RoutineId, RunTrigger, RunState}
use bokkie.Schedule.Zones.{Database}
use bokkie.Routines.Rows.{UserId, RoutineRow, RunRow, Account, Waiting, Tables, M, reads, ◌>>=◌}
use bokkie.Routines.Reasons
use bokkie.Routines.Lookups.{is_waiting, is_running, is_finished, active_run, routine_of_user}
use bokkie.Routines.Scheduler.{
  Queued, joins, records, past, reached, place, decide, emit_moved, end_missed, join, record_run,
  enqueue, queue, own_account, run_due, run_if_due, fall_due_now, fall_due, recover_all, recover,
  end_current, end, end_unstarted, wait, enforce_since, enforce_started, enforce_deadline,
}
use bokkie.Routines.Outcomes.{
  After, AnyResult, Keeps, bind-After, bind-Keeps, pure-Keeps, any_read-Keeps, reads-Keeps,
  batch-Keeps, if-Keeps, require-After, equal-After,
}
use bokkie.Routines.Sound.{RoutineSound}
use bokkie.Routines.Statements.{
  Stable, Both, effect-Keeps, set_waiting-Keeps, reschedule_waiting-Keeps,
  set_deadline_passed-Keeps,
}
use bokkie.Routines.RoutineStatements.{save-Keeps, insert_run-After, routine_of_user-Sound}
use bokkie.Routines.Endings.{emit_run-Keeps, end_run-Keeps, end_waiting-Keeps}

-- A run is recorded that does not run, and waits only if no run of its routine waits or runs.
abbrev Placed : Option RunRow → Queued → Type 0
Placed active (joins r) = Unit
Placed active (records state reason) =
    (is_running state ≡ false) × ((is_finished state ≡ true) ⊎ (active ≡ none))

decide-Placed :
    (now : Timestamp) (account : Account) (at : Timestamp) (active : Option RunRow)
    → Placed active (decide now account at active)
unfolding decide place is_running is_finished
decide-Placed now account at active = elim (Bool-cases account.disabled) [
  | inl d ↦ rw (d, decide) (refl, inl refl)
  | inr d ↦ elim (Bool-cases (past Reasons.misfire_window_ms at now)) [
    | inl p ↦ rw (d, p, decide) (refl, inl refl)
    | inr p ↦ rw (d, p, decide) (placed active)
  ]
]
  where
    placed : (active : Option RunRow) → Placed active (place active)
    placed none = (refl, inr refl)
    placed (some r) = elim (Bool-cases (is_waiting r.state)) [
      | inl w ↦ rw (w, place) tt
      | inr w ↦ rw (w, place) (refl, inl refl)
    ]

-- A routine that was read is sound.
abbrev pub ReadSound : Option RoutineRow → Type 0
ReadSound none = Unit
ReadSound (some q) = RoutineSound q

module _ {E : Tables → Type 0} (stable : Stable E) where
  pub emit_moved-Keeps : (o : Option RunRow) → Keeps (Both E) AnyResult (emit_moved o)
  unfolding emit_moved
  emit_moved-Keeps none = pure-Keeps tt tt
  emit_moved-Keeps (some r) = emit_run-Keeps stable r

  end_missed-Keeps : (r : RunRow) (s : RunState) → Keeps (Both E) AnyResult (end_missed r s)
  unfolding end_missed
  end_missed-Keeps r RunState.missed = effect-Keeps stable _
  end_missed-Keeps r _ = pure-Keeps tt tt

  join-Keeps :
      (q : RoutineRow) (trigger : RunTrigger) (at : Timestamp) (active : RunRow)
      → Keeps (Both E) AnyResult (join q trigger at active)
  unfolding join
  join-Keeps q RunTrigger.manual at active = pure-Keeps none tt
  join-Keeps q RunTrigger.schedule at active =
      bind-Keeps (reschedule_waiting-Keeps stable q.user active.id at)
        λ m h. bind-Keeps (emit_moved-Keeps m) λ a i. pure-Keeps none tt

  enqueue-After :
      (now : Timestamp) (q : RoutineRow) (trigger : RunTrigger) (at : Timestamp) (k : Queued)
      (t : Tables)
      → Placed (active_run q.user q.id t) k
      → Both E t
      → After (Both E) AnyResult (enqueue now q trigger at k) t
  unfolding enqueue record_run
  enqueue-After now q trigger at (joins r) t placed v = join-Keeps q trigger at r t v
  enqueue-After now q trigger at (records state reason) t placed v =
      bind-After _ _ t (insert_run-After stable now q _ t placed.0 placed.1 v) λ r u w h.
        bind-Keeps (emit_run-Keeps stable r)
          (λ a i. bind-Keeps (end_missed-Keeps r state) λ b j. pure-Keeps (some r) tt) u w

  pub queue-Keeps :
      (now : Timestamp) (account : Account) (q : RoutineRow) (trigger : RunTrigger) (at : Timestamp)
      → Keeps (Both E) AnyResult (queue now account q trigger at)
  unfolding queue ◌>>=◌ reads
  queue-Keeps now account q trigger at t v =
      let k = decide now account at (active_run q.user q.id t) in
      equal-After (queue now account q trigger at) (enqueue now q trigger at k) t t refl
        (enqueue-After now q trigger at k t (decide-Placed now account at _) v)

  pub own_account-Keeps : (user : UserId) → Keeps (Both E) AnyResult (own_account user)
  unfolding own_account
  own_account-Keeps user = bind-Keeps (any_read-Keeps _) λ a h t v. weaken (require-After _ a t v)
    where
      weaken :
          {A : Type 0} {Q : A → Type 0} {m : M A} {t : Tables}
          → After (Both E) Q m t
          → After (Both E) AnyResult m t
      weaken h = record { keeps = h.keeps; gives = λ a e. tt }

  run_due-Keeps :
      (db : Database) (now : Timestamp) (q : RoutineRow) (next_run_at : Timestamp)
      → RoutineSound q
      → q.paused ≡ false
      → Keeps (Both E) AnyResult (run_due db now q next_run_at)
  unfolding run_due
  run_due-Keeps db now q next_run_at good on = bind-Keeps (own_account-Keeps q.user) λ account h.
      bind-Keeps (save-Keeps stable now _ (record { idle = λ p. cc (on, p); able = good.able }))
        λ q' i. bind-Keeps (effect-Keeps stable _) λ a j.
          bind-Keeps (queue-Keeps now account q' RunTrigger.schedule _) λ r k. pure-Keeps tt tt

  run_if_due-Keeps :
      (db : Database) (now : Timestamp) (q : RoutineRow) (o : Option Timestamp)
      → RoutineSound q
      → Keeps (Both E) AnyResult (run_if_due db now q o)
  unfolding run_if_due
  run_if_due-Keeps db now q none good = pure-Keeps tt tt
  run_if_due-Keeps db now q (some a) good =
      if-Keeps (leb a now && not q.paused) (λ h. run_due-Keeps db now q a good (ground arith))
        λ h. pure-Keeps tt tt

  fall_due_now-Keeps :
      (db : Database) (now : Timestamp) (o : Option RoutineRow)
      → ReadSound o
      → Keeps (Both E) AnyResult (fall_due_now db now o)
  unfolding fall_due_now
  fall_due_now-Keeps db now none h = pure-Keeps tt tt
  fall_due_now-Keeps db now (some q) good = run_if_due-Keeps db now q q.next_run_at good

  pub read_routine-Keeps :
      (user : UserId) (id : RoutineId) → Keeps (Both E) ReadSound (reads (routine_of_user user id))
  read_routine-Keeps user id = reads-Keeps (routine_of_user user id) λ t v.
      elim (Option-cases (routine_of_user user id t)) [
        | inl n ↦ rw n tt
        | inr (q, g) ↦ rw g (routine_of_user-Sound stable user id t q v g).2
      ]

  pub fall_due-Keeps :
      (db : Database) (now : Timestamp) (user : UserId) (id : RoutineId)
      → Keeps (Both E) AnyResult (fall_due db now user id)
  unfolding fall_due
  fall_due-Keeps db now user id =
      batch-Keeps (bind-Keeps (read_routine-Keeps user id) λ o h. fall_due_now-Keeps db now o h)

  recover_all-Keeps :
      (now : Timestamp) (rs : List RunRow) → Keeps (Both E) AnyResult (recover_all now rs)
  unfolding recover_all is_finished
  recover_all-Keeps now [] = pure-Keeps tt tt
  recover_all-Keeps now (r ∷ rs) =
      bind-Keeps (batch-Keeps (end_run-Keeps stable now r _ _ refl)) λ a h. recover_all-Keeps now rs

  pub recover-Keeps : (now : Timestamp) → Keeps (Both E) AnyResult (recover now)
  unfolding recover
  recover-Keeps now = bind-Keeps (any_read-Keeps _) λ rs h. recover_all-Keeps now rs

  end_current-Keeps :
      (now : Timestamp) (state : RunState) (reason : Option Text) (o : Option RunRow)
      → is_finished state ≡ true
      → Keeps (Both E) AnyResult (end_current now state reason o)
  unfolding end_current
  end_current-Keeps now state reason none f = pure-Keeps tt tt
  end_current-Keeps now state reason (some r) f =
      bind-Keeps (end_run-Keeps stable now r state reason f) λ a h. pure-Keeps tt tt

  pub end-Keeps :
      (now : Timestamp) (r : RunRow) (state : RunState) (reason : Option Text)
      → is_finished state ≡ true
      → Keeps (Both E) AnyResult (end now r state reason)
  unfolding end
  end-Keeps now r state reason f =
      batch-Keeps (bind-Keeps (any_read-Keeps _) λ o h. end_current-Keeps now state reason o f)

  pub end_unstarted-Keeps :
      (now : Timestamp) (r : RunRow) (state : RunState) (reason : Option Text)
      → is_finished state ≡ true
      → Keeps (Both E) AnyResult (end_unstarted now r state reason)
  unfolding end_unstarted
  end_unstarted-Keeps now r state reason f =
      batch-Keeps
        (bind-Keeps (end_waiting-Keeps stable now r state reason f) λ a h. pure-Keeps tt tt)

  pub wait-Keeps :
      (r : RunRow) (w : Waiting) (reason : Text) → Keeps (Both E) AnyResult (wait r w reason)
  unfolding wait
  wait-Keeps r w reason =
      batch-Keeps
        (bind-Keeps (set_waiting-Keeps stable r.user r.id w reason) λ o h. emit_moved-Keeps o)

  enforce_since-Keeps :
      (now : Timestamp) (r : RunRow) (started : Timestamp) (o : Option Timestamp)
      → Keeps (Both E) AnyResult (enforce_since now r started o)
  unfolding enforce_since is_finished
  enforce_since-Keeps now r started none =
      if-Keeps (reached Reasons.run_deadline_ms started now)
        (λ h. bind-Keeps (set_deadline_passed-Keeps stable now r.user r.id) λ b i. pure-Keeps tt tt)
        λ h. pure-Keeps tt tt
  enforce_since-Keeps now r started (some asked) =
      if-Keeps (reached Reasons.interrupt_grace_ms asked now) (λ h. end-Keeps now r _ _ refl)
        λ h. pure-Keeps tt tt

  enforce_started-Keeps :
      (now : Timestamp) (r : RunRow) (o : Option Timestamp)
      → Keeps (Both E) AnyResult (enforce_started now r o)
  unfolding enforce_started
  enforce_started-Keeps now r none = pure-Keeps tt tt
  enforce_started-Keeps now r (some a) = enforce_since-Keeps now r a r.deadline_passed_at

  pub enforce_deadline-Keeps :
      (now : Timestamp) (r : RunRow) → Keeps (Both E) AnyResult (enforce_deadline now r)
  unfolding enforce_deadline
  enforce_deadline-Keeps now r = enforce_started-Keeps now r r.started_at
