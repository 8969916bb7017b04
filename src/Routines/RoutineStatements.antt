-- ===== src/Routines/RoutineStatements.antt =====
-- The statements of crates/bokkie-gateway/src/routines/store.rs that change routines or record runs,
-- for a further property of the tables that the kinds of write keep.
use bokkie.Prelude.{
  ◌≡◌, refl, sym, ◌∙◌, subst, ◌⊎◌, inl, inr, Bool, true, false, not, ◌&&◌, Bool-cases, Option, none,
  some, Option-cases, [], ◌∷◌, ◌==◌, ==_iff, arith, ltb, leb, min, ◌+◌, ◌-◌, ◌^◌,
}
use bokkie.Maps.{Map, get}
use bokkie.Protocol.Routines.{Timestamp, RoutineId, RoutineRunId}
use bokkie.Routines.Rows.{UserId, RoutineRow, RunRow, Tables, not_found, conflict}
use bokkie.Routines.Lookups.{
  is_running, is_finished, is_active, fresh, select, first, routine_of_user, active_run, bot_of,
}
use bokkie.Routines.RoutineChanges.{
  with_routine, NewRoutine, new_row, is_taken, create, saved, save, counted, save_counted,
  count_outcome,
}
use bokkie.Routines.Changes.{with_run, NewRun, queued, insert_run}
use bokkie.Routines.Outcomes.{
  After, AnyResult, Keeps, pure-After, bind-After, equal-After, returns-After, refuses-After,
}
use bokkie.Routines.Sound.{RoutineSound, RunSound, Sound, waiting_state}
use bokkie.Routines.Writes.{insert-Sound}
use bokkie.Routines.RoutineWrites.{save-Sound, create-Sound}
use bokkie.Routines.Statements.{Stable, Both, filtered_lem}

-- What `counted` makes of a sound routine is sound.
abbrev Counted : Option (RoutineRow × Bool) → Type 0
Counted none = Unit
Counted (some (q, p)) = RoutineSound q

select-none :
    (p : RunRow → Bool) (i : RoutineRunId) (r : RunRow) (m : Map RunRow)
    → first (select p m) ≡ none
    → get i m ≡ some r
    → p r ≡ false
unfolding select first get
select-none p i r [] = λ n h. absurd (ground arith)
select-none p i r ((j, s) ∷ m) = elim (Bool-cases (p s)) [
  | inl q ↦ rw (q, select, first) λ n h. absurd (ground arith)
  | inr q ↦ elim (Bool-cases (j == i)) [
    | inl e ↦ rw (q, select, get, e) λ n h. (let c : s ≡ r = cc h in subst (λ x. p x ≡ false) c q)
    | inr e ↦ rw (q, select, get, e) λ n h. select-none p i r m n h
  ]
]

-- Where the query finds no run of a routine that waits or runs, there is none.
active_run-none :
    (user : UserId) (id : RoutineId) (t : Tables) (q : RoutineRow)
    → Sound t
    → get id t.routines ≡ some q
    → q.user ≡ user
    → active_run user id t ≡ none
    → (i : RoutineRunId) (r : RunRow) → get i t.runs ≡ some r
    → r.routine ≡ id
    → is_active r.state ≡ false
unfolding active_run
active_run-none user id t q v g e n i r h k =
    let o = v.owned i r h in
    let same : some o.0 ≡ some q = sym o.1 ∙ subst (λ x. get x t.routines ≡ some q) (sym k) g in
    let c : o.0 ≡ q = cc same in
    let u : r.user ≡ user = sym o.2 ∙ subst (λ x. x.user ≡ user) (sym c) e in
    let f =
      select-none (λ r. (r.routine == id) && (r.user == user) && is_active r.state) i r t.runs n
        h in
    let a : (r.routine == id) ≡ true = (==_iff r.routine id).1 k in
    let b : (r.user == user) ≡ true = (==_iff r.user user).1 u in ground arith

module _ {E : Tables → Type 0} (stable : Stable E) where
  pub save-Keeps :
      (now : Timestamp) (q : RoutineRow) → RoutineSound q → Keeps (Both E) AnyResult (save now q)
  unfolding save
  save-Keeps now q good t v = elim (Option-cases (get q.id t.routines)) [
    | inl n ↦ refuses-After (save now q) t t not_found (rw (n, save) refl) v
    | inr (old, g) ↦ elim (Bool-cases ((old.bot == q.bot) && (old.user == q.user))) [
      | inl m ↦ elim (Bool-cases (is_taken q.id q.bot q.name t.routines)) [
        | inl k ↦ refuses-After (save now q) t t conflict (rw (g, m, k, save) refl) v
        | inr k ↦
            returns-After (save now q) t (with_routine q.id (saved now q old) t) (saved now q old)
              (rw (g, m, k, save) refl)
              (
                save-Sound t q.id old (saved now q old) v.0 g refl refl refl (saved-Sound old),
                stable.saves t q.id (saved now q old) v.1,
              )
              tt
      ]
      | inr m ↦ refuses-After (save now q) t t not_found (rw (g, m, save) refl) v
    ]
  ]
    where
      saved-Sound : (old : RoutineRow) → RoutineSound (saved now q old)
      saved-Sound old = record { idle = good.idle; able = good.able }

  counted-Sound : (failed : Bool) (q : RoutineRow) → RoutineSound q → Counted (counted failed q)
  unfolding counted
  counted-Sound true q good =
      elim (Bool-cases (leb 3 (min (q.failures + 1) (2 ^ 32 - 1)) && not q.paused)) [
        | inl c ↦ rw (c, counted) (record { idle = λ h. refl; able = λ h. cc h })
        | inr c ↦ rw (c, counted) (record { idle = good.idle; able = λ h. ground arith })
      ]
  counted-Sound false q good = elim (Bool-cases (ltb 0 q.failures)) [
    | inl c ↦ rw (c, counted) (record { idle = good.idle; able = λ h. omega arith })
    | inr c ↦ rw (c, counted) tt
  ]

  save_counted-Keeps :
      (now : Timestamp) (o : Option (RoutineRow × Bool))
      → Counted o
      → Keeps (Both E) AnyResult (save_counted now o)
  unfolding save_counted
  save_counted-Keeps now none c t v = pure-After _ none t v tt
  save_counted-Keeps now (some (q, p)) c t v =
      bind-After (save now q) _ t (save-Keeps now q c t v) λ q' u w h. pure-After _ _ u w tt

  -- A routine read from sound tables is sound.
  pub routine_of_user-Sound :
      (user : UserId) (id : RoutineId) (t : Tables) (q : RoutineRow)
      → Both E t
      → routine_of_user user id t ≡ some q
      → (get id t.routines ≡ some q) × (q.user ≡ user) × RoutineSound q
  unfolding routine_of_user
  routine_of_user-Sound user id t q v h =
      let f = filtered_lem (λ x. x.user == user) (get id t.routines) q h in
      (f.0, (==_iff q.user user).0 f.1, (v.0.routine_sound id q f.0).1)

  pub count_outcome-Keeps :
      (now : Timestamp) (r : RunRow) (failed : Bool)
      → Keeps (Both E) AnyResult (count_outcome now r failed)
  unfolding count_outcome
  count_outcome-Keeps now r failed t v = elim (Option-cases (routine_of_user r.user r.routine t)) [
    | inl n ↦ returns-After (count_outcome now r failed) t t none (rw (n, count_outcome) refl) v tt
    | inr (q, g) ↦
        equal-After (count_outcome now r failed) (save_counted now (counted failed q)) t t
          (rw (g, count_outcome) refl)
          (save_counted-Keeps now (counted failed q)
            (counted-Sound failed q (routine_of_user-Sound r.user r.routine t q v g).2) t v)
  ]

  queued-Sound :
      (now : Timestamp) (new : NewRun) (q : RoutineRow) (id : RoutineId) (run : RoutineRunId)
      → is_running new.state ≡ false
      → RunSound (queued now new q id run)
  unfolding queued
  queued-Sound now new q id run n = record {
    waits = λ h. (refl, rw (waiting_state new.state h).2 refl, refl, refl);
    runs = λ h. cc (n, h);
    ended = λ h. ((now, rw h refl), refl);
  }

  -- A run is recorded that does not run, and that does not wait where another of its routine waits
  -- or runs.
  pub insert_run-After :
      (now : Timestamp) (q : RoutineRow) (new : NewRun) (t : Tables)
      → is_running new.state ≡ false
      → (is_finished new.state ≡ true) ⊎ (active_run q.user q.id t ≡ none)
      → Both E t
      → After (Both E) AnyResult (insert_run now q new) t
  unfolding insert_run
  insert_run-After now q new t n alone v = elim (Option-cases (routine_of_user q.user q.id t)) [
    | inl g ↦ refuses-After (insert_run now q new) t t not_found (rw (g, insert_run) refl) v
    | inr (q', g) ↦
        let found = routine_of_user-Sound q.user q.id t q' v g in
        let r = queued now new q' q.id (fresh t.runs) in
        returns-After (insert_run now q new) t (with_run (fresh t.runs) r t) r
          (rw (g, insert_run) refl)
          (
            insert-Sound t r q' v.0 refl (queued-Sound now new q' q.id (fresh t.runs) n) found.0
                refl refl
                (elim alone [
                  | inl f ↦ inl f
                  | inr f ↦ inr (active_run-none q.user q.id t q' v.0 found.0 found.1 f)
                ]),
            stable.queues t r v.1,
          )
          tt
  ]

  pub create-Keeps :
      (now : Timestamp) (user : UserId) (new : NewRoutine)
      → (new.paused ≡ true → new.next_run_at ≡ none)
      → Keeps (Both E) AnyResult (create now user new)
  unfolding create
  create-Keeps now user new idle t v =
      let q = new_row now user new (fresh t.routines) in
      elim (Option-cases (bot_of user new.bot t)) [
        | inl n ↦ refuses-After (create now user new) t t not_found (rw (n, create) refl) v
        | inr (b, g) ↦ elim (Bool-cases (is_taken q.id q.bot q.name t.routines)) [
          | inl k ↦ refuses-After (create now user new) t t conflict (rw (g, k, create) refl) v
          | inr k ↦
              returns-After (create now user new) t (with_routine q.id q t) q
                (rw (g, k, create) refl)
                (
                  create-Sound t q v.0 refl (record { idle = idle; able = λ h. omega arith }),
                  stable.saves t q.id q v.1,
                )
                tt
        ]
      ]
