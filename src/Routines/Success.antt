-- ===== src/Routines/Success.antt =====
-- Code of crates/bokkie-gateway/src/routines that succeeds, and what it leaves.
use bokkie.Prelude.{
  ◌+◌, ◌-◌, ◌^◌, min, leb, ltb, ◌≡◌, refl, sym, ap, ◌∙◌, subst, Bool, true, false, not, ◌&&◌,
  Bool-cases, Option, none, some, ◌++◌, [], ◌∷◌, ◌==◌, ==_iff, inl, inr,
}
use bokkie.Maps.{get}
use bokkie.Protocol.Routines.{Timestamp, RunState}
use bokkie.Routines.Rows.{
  UserId, RoutineRow, RunRow, Tables, Effect, M, pure, reads, batch, effect, ok, err, ◌>>=◌,
}
use bokkie.Routines.Lookups.{filtered, routine_of_user}
use bokkie.Routines.RoutineChanges.{
  with_routine, is_taken, saved, save, counted, save_counted, count_outcome,
}
use bokkie.Routines.Runs.{
  emit_run, outcome, announce_counted, count_end, announce_end, announce_ended,
}

pub record Succeeds (R : Tables → Type 0) {A : Type 0} (m : M A) (t : Tables) : Type 0 where
  pub value : A
  pub tables : Tables
  pub equation : m t ≡ (ok value, tables)
  pub leaves : R tables

pub bind-equal :
    {S : Tables → Type 0} {A B : Type 0} (m : M A) (f : A → M B) (t : Tables) (a : A) (u : Tables)
    → m t ≡ (ok a, u)
    → Succeeds S (f a) u
    → Succeeds S (m >>= f) t
unfolding ◌>>=◌
bind-equal m f t a u e n = record {
  value = n.value;
  tables = n.tables;
  equation = ap (λ x. elim x.0 [ ok a ↦ f a x.1 | err e ↦ (err e, x.1) ]) e ∙ n.equation;
  leaves = n.leaves;
}

pub bind-Succeeds :
    {R S : Tables → Type 0} {A B : Type 0} {m : M A} {f : A → M B} {t : Tables}
    → Succeeds R m t
    → ((a : A) (u : Tables) → R u → Succeeds S (f a) u)
    → Succeeds S (m >>= f) t
bind-Succeeds h k = bind-equal _ _ _ h.value h.tables h.equation (k h.value h.tables h.leaves)

pub pure-Succeeds :
    {R : Tables → Type 0} {A : Type 0} (a : A) (t : Tables) → R t → Succeeds R (pure a) t
unfolding pure
pure-Succeeds a t r = record { value = a; tables = t; equation = refl; leaves = r }

pub reads-Succeeds : {A : Type 0} (f : Tables → A) (t : Tables) → Succeeds (λ u. u ≡ t) (reads f) t
unfolding reads
reads-Succeeds f t = record { value = f t; tables = t; equation = refl; leaves = refl }

pub batch-Succeeds :
    {R : Tables → Type 0} {A : Type 0} {m : M A} {t : Tables}
    → Succeeds R m t
    → Succeeds R (batch m) t
unfolding batch
batch-Succeeds {t = t} h = record {
  value = h.value;
  tables = h.tables;
  equation = ap (λ x. elim x.0 [ ok a ↦ (ok a, x.1) | err e ↦ (err e, t) ]) h.equation;
  leaves = h.leaves;
}

-- The tables have the runs and the routines that `t` has.
abbrev pub Alike : Tables → Tables → Type 0
Alike t u = (u.runs ≡ t.runs) × (u.routines ≡ t.routines)

effect-Succeeds : (e : Effect) (t u : Tables) → Alike t u → Succeeds (Alike t) (effect e) u
unfolding effect
effect-Succeeds e t u s = record {
  value = tt;
  tables = record u { effects = u.effects ++ e ∷ [] };
  equation = refl;
  leaves = s;
}

effect_runs :
    (t : Tables) (e : Effect) (u : Tables)
    → u.runs ≡ t.runs
    → Succeeds (λ w. w.runs ≡ t.runs) (effect e) u
unfolding effect
effect_runs t e u s = record {
  value = tt;
  tables = record u { effects = u.effects ++ e ∷ [] };
  equation = refl;
  leaves = s;
}

emit_run-Succeeds : (r : RunRow) (t u : Tables) → Alike t u → Succeeds (Alike t) (emit_run r) u
unfolding emit_run
emit_run-Succeeds r t u s =
    bind-Succeeds (reads-Succeeds _ u) λ ids w e. effect-Succeeds _ t w (subst (Alike t) (sym e) s)

-- The run's routine is there, and no other of its Bot has its name.
pub record Named (r : RunRow) (q : RoutineRow) (t : Tables) : Type 0 where
  pub there : get r.routine t.routines ≡ some q
  pub same : q.id ≡ r.routine
  pub alone : is_taken q.id q.bot q.name t.routines ≡ false

-- Writing back a routine that was read, under its own name, succeeds.
save-Succeeds :
    (now : Timestamp) (old q : RoutineRow) (t u : Tables)
    → u.runs ≡ t.runs
    → get q.id u.routines ≡ some old
    → old.bot ≡ q.bot
    → old.user ≡ q.user
    → is_taken q.id q.bot q.name u.routines ≡ false
    → Succeeds (λ w. w.runs ≡ t.runs) (save now q) u
unfolding save
save-Succeeds now old q t u s g b v n =
    let c : (old.bot == q.bot) ≡ true = (==_iff old.bot q.bot).1 b in
    let d : (old.user == q.user) ≡ true = (==_iff old.user q.user).1 v in
    record {
      value = saved now q old;
      tables = with_routine q.id (saved now q old) u;
      equation = rw (g, c, d, n, save) refl;
      leaves = s;
    }

-- What `counted` leaves of a routine's place.
abbrev InPlace : RoutineRow → Option (RoutineRow × Bool) → Type 0
InPlace q none = Unit
InPlace q (some (p, b)) = (p.id ≡ q.id) × (p.bot ≡ q.bot) × (p.user ≡ q.user) × (p.name ≡ q.name)

counted-InPlace : (failed : Bool) (q : RoutineRow) → InPlace q (counted failed q)
unfolding counted
counted-InPlace true q =
    elim (Bool-cases (leb 3 (min (q.failures + 1) (2 ^ 32 - 1)) && not q.paused)) [
      | inl c ↦ rw (c, counted) (refl, refl, refl, refl)
      | inr c ↦ rw (c, counted) (refl, refl, refl, refl)
    ]
counted-InPlace false q = elim (Bool-cases (ltb 0 q.failures)) [
  | inl c ↦ rw (c, counted) (refl, refl, refl, refl)
  | inr c ↦ rw (c, counted) tt
]

module _ (now : Timestamp) (t : Tables) where
  save_counted-Succeeds :
      (q : RoutineRow) (o : Option (RoutineRow × Bool)) (u : Tables)
      → Alike t u
      → get q.id t.routines ≡ some q
      → is_taken q.id q.bot q.name t.routines ≡ false
      → InPlace q o
      → Succeeds (λ w. w.runs ≡ t.runs) (save_counted now o) u
  unfolding save_counted
  save_counted-Succeeds q none u s g n p = pure-Succeeds none u s.0
  save_counted-Succeeds q (some (c, b)) u s g n p =
      bind-Succeeds
        (save-Succeeds now q c t u s.0 (rw (s.1, p.0) g) (sym p.1) (sym p.2)
          (rw (s.1, p.0, p.1, p.3) n))
        λ d w h. pure-Succeeds _ w h

  count_outcome-Succeeds :
      (r : RunRow) (q : RoutineRow) (failed : Bool) (u : Tables)
      → Alike t u
      → Named r q t
      → Succeeds (λ w. w.runs ≡ t.runs) (count_outcome now r failed) u
  unfolding count_outcome routine_of_user filtered
  count_outcome-Succeeds r q failed u s n =
      let g : get r.routine u.routines ≡ some q = rw s.1 n.there in
      elim (Bool-cases (q.user == r.user)) [
        | inl c ↦
            let h =
              save_counted-Succeeds q (counted failed q) u s
                (subst (λ i. get i t.routines ≡ some q) (sym n.same) n.there) n.alone
                (counted-InPlace failed q) in
            record {
              value = h.value;
              tables = h.tables;
              equation = rw (g, c, count_outcome) h.equation;
              leaves = h.leaves;
            }
        | inr c ↦ record {
          value = none;
          tables = u;
          equation = rw (g, c, count_outcome) refl;
          leaves = s.0;
        }
      ]

  announce_counted-Succeeds :
      (user : UserId) (o : Option (RoutineRow × Bool)) (u : Tables)
      → u.runs ≡ t.runs
      → Succeeds (λ w. w.runs ≡ t.runs) (announce_counted user o) u
  unfolding announce_counted
  announce_counted-Succeeds user none u s = pure-Succeeds false u s
  announce_counted-Succeeds user (some (q, b)) u s =
      bind-Succeeds (effect_runs t _ u s) λ a w h. pure-Succeeds b w h

  count_end-Succeeds :
      (r : RunRow) (q : RoutineRow) (o : Option Bool) (u : Tables)
      → Alike t u
      → Named r q t
      → Succeeds (λ w. w.runs ≡ t.runs) (count_end now r o) u
  unfolding count_end
  count_end-Succeeds r q none u s n = pure-Succeeds false u s.0
  count_end-Succeeds r q (some b) u s n =
      bind-Succeeds (count_outcome-Succeeds r q b u s n)
        λ c w h. announce_counted-Succeeds r.user c w h

  -- Announcing the end of a run succeeds and leaves the runs alone.
  announce_end-Succeeds :
      (r : RunRow) (q : RoutineRow) (state : RunState)
      → Named r q t
      → Succeeds (λ w. w.runs ≡ t.runs) (announce_end now r state) t
  unfolding announce_end
  announce_end-Succeeds r q state n = bind-Succeeds (emit_run-Succeeds r t t (refl, refl)) λ a u s.
      bind-Succeeds (count_end-Succeeds r q (outcome r state) u s n) λ b w h. effect_runs t _ w h

  pub announce_ended-Succeeds :
      (r : RunRow) (q : RoutineRow) (state : RunState)
      → Named r q t
      → Succeeds (λ w. w.runs ≡ t.runs) (announce_ended now state (some r)) t
  unfolding announce_ended
  announce_ended-Succeeds r q state n =
      bind-Succeeds (announce_end-Succeeds r q state n) λ a w h. pure-Succeeds (some r) w h
