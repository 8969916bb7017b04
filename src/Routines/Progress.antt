-- ===== src/Routines/Progress.antt =====
-- That runs end: `end_waiting`, `end_run`, `attempt` and `enforce_deadline` of
-- crates/bokkie-gateway/src/routines/mod.rs.
use bokkie.Prelude.{◌≡◌, refl, sym, ◌∙◌, subst, Bool, true, Option, none, some, ◌==◌, ==_iff}
use bokkie.Maps.{get, get-insert}
use bokkie.Protocol.Routines.{Text, Timestamp, RoutineRunId, RunState}
use bokkie.Routines.Rows.{UserId, RoutineRow, RunRow, Tables, reads, ok}
use bokkie.Routines.Lookups.{is_waiting, is_active, filtered, run, tokens_of}
use bokkie.Routines.Changes.{with_run, update_run, finish_from, finish, finish_waiting}
use bokkie.Routines.Runs.{announce_ended, end_run, end_waiting}
use bokkie.Routines.Scheduler.{end_current, end, end_unstarted}
use bokkie.Routines.Success.{
  Succeeds, bind-equal, bind-Succeeds, pure-Succeeds, batch-Succeeds, Named,
  announce_ended-Succeeds,
}

-- The run that ends, as its row then is.
abbrev pub ended_row : Timestamp → RunState → Option Text → Tables → RunRow → RunRow
ended_row now state reason t x = record x {
  state = state;
  reason = reason;
  finished_at = some now;
  waiting_for = none;
  tokens = tokens_of x.user x.turn_id t.tokens;
}

-- The run is there, it is the user's, and its routine has a name of its own.
pub record Endable (user : UserId) (id : RoutineRunId) (x : RunRow) (q : RoutineRow) (t : Tables)
    : Type 0 where
  pub there : get id t.runs ≡ some x
  pub mine : x.user ≡ user
  pub named : Named x q t

-- The run has ended in this state, for this reason.
abbrev pub EndedIn : RunState → Option Text → RoutineRunId → Tables → Type 0
EndedIn state reason id t =
    (y : RunRow) × (get id t.runs ≡ some y)
    × (y.state ≡ state)
    × (y.reason ≡ reason)
    × ((at : Timestamp) × (y.finished_at ≡ some at))

module _ (now : Timestamp) (state : RunState) (reason : Option Text) where
  finish_from-ends :
      (from : RunState → Bool) (user : UserId) (id : RoutineRunId) (x : RunRow) (q : RoutineRow)
      (t : Tables)
      → Endable user id x q t
      → from x.state ≡ true
      → finish_from from now user id state reason t ≡ (
        ok (some (ended_row now state reason t x)),
        with_run id (ended_row now state reason t x) t,
      )
  unfolding finish_from update_run
  finish_from-ends from user id x q t e f =
      let g = e.there in
      let u : (x.user == user) ≡ true = (==_iff x.user user).1 e.mine in
      rw (g, u, f, update_run, finish_from) refl

  announced :
      (user : UserId) (id : RoutineRunId) (x : RunRow) (q : RoutineRow) (t : Tables)
      → Endable user id x q t
      → Succeeds
          (EndedIn state reason id)
          (announce_ended now state (some (ended_row now state reason t x)))
          (with_run id (ended_row now state reason t x) t)
  announced user id x q t e =
      let r = ended_row now state reason t x in
      let h =
        announce_ended-Succeeds now (with_run id r t) r q state
          (record { there = e.named.there; same = e.named.same; alone = e.named.alone }) in
      record {
        value = h.value;
        tables = h.tables;
        equation = h.equation;
        leaves = (
          r,
          subst (λ m. get id m ≡ some r) (sym h.leaves)
              (get-insert id id r t.runs ∙ rw ((==_iff id id).1 refl) refl),
          refl,
          refl,
          (now, refl),
        );
      }

  pub end_waiting-ends :
      (r x : RunRow) (q : RoutineRow) (t : Tables)
      → Endable r.user r.id x q t
      → is_waiting x.state ≡ true
      → Succeeds (EndedIn state reason r.id) (end_waiting now r state reason) t
  unfolding end_waiting finish_waiting
  end_waiting-ends r x q t e w =
      bind-equal _ _ t _ _ (finish_from-ends is_waiting r.user r.id x q t e w)
        (announced r.user r.id x q t e)

  pub end_run-ends :
      (r x : RunRow) (q : RoutineRow) (t : Tables)
      → Endable r.user r.id x q t
      → is_active x.state ≡ true
      → Succeeds (EndedIn state reason r.id) (end_run now r state reason) t
  unfolding end_run finish
  end_run-ends r x q t e w =
      bind-equal _ _ t _ _ (finish_from-ends is_active r.user r.id x q t e w)
        (announced r.user r.id x q t e)

  pub end_unstarted-ends :
      (r x : RunRow) (q : RoutineRow) (t : Tables)
      → Endable r.user r.id x q t
      → is_waiting x.state ≡ true
      → Succeeds (EndedIn state reason r.id) (end_unstarted now r state reason) t
  unfolding end_unstarted
  end_unstarted-ends r x q t e w =
      batch-Succeeds (bind-Succeeds (end_waiting-ends r x q t e w) λ a u h. pure-Succeeds tt u h)

  -- `end` reads the run again.
  pub end-ends :
      (r x : RunRow) (q : RoutineRow) (t : Tables)
      → Endable r.user r.id x q t
      → x.id ≡ r.id
      → is_active x.state ≡ true
      → Succeeds (EndedIn state reason r.id) (end now r state reason) t
  unfolding end run filtered end_current reads
  end-ends r x q t e i w = batch-Succeeds (
      bind-equal _ _ t (some x) t read (
        subst (λ j. Succeeds (EndedIn state reason j) (end_current now state reason (some x)) t) i
          current))
    where
      again : Endable x.user x.id x q t
      again = record {
        there = subst (λ j. get j t.runs ≡ some x) (sym i) e.there;
        mine = refl;
        named = e.named;
      }

      current : Succeeds (EndedIn state reason x.id) (end_current now state reason (some x)) t
      current = bind-Succeeds (end_run-ends x x q t again w) λ a u h. pure-Succeeds tt u h

      read : reads (run r.user r.id) t ≡ (ok (some x), t)
      read =
          let g = e.there in
          let u : (x.user == r.user) ≡ true = (==_iff x.user r.user).1 e.mine in rw (g, u) refl
