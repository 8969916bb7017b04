-- ===== src/Routines/Marked.antt =====
-- A run past its deadline, while anything else happens: crates/bokkie-gateway/src/routines/mod.rs.
use bokkie.Prelude.{
  ◌≡◌, refl, sym, ◌∙◌, subst, true, false, Bool-cases, none, some, ◌⊎◌, inl, inr, List, [], ◌∷◌,
  ◌==◌, ==_iff, All,
}
use bokkie.Maps.{get, get-insert}
use bokkie.Protocol.Routines.{Timestamp, RoutineRunId, RoutineId}
use bokkie.Schedule.Zones.{Database}
use bokkie.Routines.Rows.{UserId, RunRow, Tables}
use bokkie.Routines.Lookups.{is_waiting, is_running, is_active, is_finished, fresh}
use bokkie.Routines.System.{Action, act, run_all, removes}
use bokkie.Routines.Sound.{Sound, RunStep, running_state, waiting_state}
use bokkie.Routines.Writes.{get-fresh}
use bokkie.Routines.Statements.{Stable}
use bokkie.Routines.Invariant.{act-Both}

-- The row of a run of the user and routine, which started at a time and was marked at another.
abbrev pub MarkedRow : UserId → RoutineId → (started asked : Timestamp) → RunRow → Type 0
MarkedRow user routine started asked r =
    (r.user ≡ user)
    × (r.routine ≡ routine)
    × (r.started_at ≡ some started)
    × (r.deadline_passed_at ≡ some asked)

-- The run has ended, or it still runs as it was marked.
abbrev pub Marked :
    UserId → RoutineId → (started asked : Timestamp) → RoutineRunId → Tables → Type 0
Marked user routine started asked id t =
    (r : RunRow) × (get id t.runs ≡ some r)
    × ((is_finished r.state ≡ true)
        ⊎ ((is_running r.state ≡ true) × MarkedRow user routine started asked r))

module _ (user : UserId) (routine : RoutineId) (started asked : Timestamp) (id : RoutineRunId) where
  -- A marked run does not wait.
  not_waiting :
      (r : RunRow)
      → is_waiting r.state ≡ true
      → (is_finished r.state ≡ true)
        ⊎ ((is_running r.state ≡ true) × MarkedRow user routine started asked r)
      → ⊥
  not_waiting r h (inl f) = cc (f, (waiting_state r.state h).2)
  not_waiting r h (inr m) = cc (m.0, (waiting_state r.state h).1)

  -- What a step makes of a marked run's row.
  step-Marked :
      (r s : RunRow)
      → RunStep r s
      → (is_finished r.state ≡ true)
        ⊎ ((is_running r.state ≡ true) × MarkedRow user routine started asked r)
      → (is_finished s.state ≡ true)
        ⊎ ((is_running s.state ≡ true) × MarkedRow user routine started asked s)
  unfolding is_active
  step-Marked r _ (RunStep.waits w reason h) m = absurd (not_waiting r h m)
  step-Marked r _ (RunStep.moves at h l) m = absurd (not_waiting r h m)
  step-Marked r _ (RunStep.starts now thread turn h) m = absurd (not_waiting r h m)
  step-Marked r _ (RunStep.ends now state reason tokens h f) m = inl f
  step-Marked r _ (RunStep.stops now h f) (inl g) = cc (g, (running_state r.state h).2)
  step-Marked r _ (RunStep.stops now h f) (inr m) = cc (f, m.1.3)

  Marked-Stable : Stable (Marked user routine started asked id)
  Marked-Stable = record {
    steps = λ t i x y v m g step. elim (Bool-cases (i == id)) [
      | inl e ↦
          let k : i ≡ id = (==_iff i id).0 e in
          let found : get id t.runs ≡ some x = subst (λ j. get j t.runs ≡ some x) k g in
          let same : some m.0 ≡ some x = sym m.1 ∙ found in
          let c : m.0 ≡ x = cc same in
          (
            y,
            get-insert i id y t.runs ∙ rw (e) refl,
            step-Marked x y step (
                subst
                  (λ z.
                    (is_finished z.state ≡ true)
                    ⊎ ((is_running z.state ≡ true) × MarkedRow user routine started asked z))
                  c m.2),
          )
      | inr e ↦ (m.0, get-insert i id y t.runs ∙ rw (e) m.1, m.2)
    ];
    queues = λ t x m. elim (Bool-cases (fresh t.runs == id)) [
      | inl e ↦
          let k : fresh t.runs ≡ id = (==_iff (fresh t.runs) id).0 e in
          let n : get id t.runs ≡ none = subst (λ j. get j t.runs ≡ none) k (get-fresh t.runs) in
          cc (n, m.1)
      | inr e ↦ (m.0, get-insert (fresh t.runs) id x t.runs ∙ rw (e) m.1, m.2)
    ];
    saves = λ t i q m. m;
    others = λ t a b c k f m. m;
  }

  pub run_all-Marked :
      (db : Database) (l : List Action) (t : Tables)
      → Sound t
      → All (λ a. removes a ≡ false) l
      → Marked user routine started asked id t
      → Sound (run_all db l t) × Marked user routine started asked id (run_all db l t)
  unfolding run_all
  run_all-Marked db [] t v n m = (v, m)
  run_all-Marked db (a ∷ l) t v n m =
      let b = act-Both Marked-Stable db a t n.0 (v, m) in
      run_all-Marked db l (act db a t) b.0 n.1 b.1
