-- ===== src/Routines/RoutineWrites.antt =====
-- The writes of crates/bokkie-gateway/src/routines/store.rs to the routines, its deletions, and the
-- writes of others, keep the tables sound.
use bokkie.Prelude.{
  ◌≡◌, refl, sym, subst, ◌∙◌, inl, inr, true, false, not, Bool-cases, none, some, List, ◌==◌,
  ==_iff, arith, ◌&&◌, leb, ◌+◌,
}
use bokkie.Maps.{
  Map, get, get-insert, remove, retain, insert-Ascending, remove-Ascending, retain-Ascending,
  get-remove,
}
use bokkie.Protocol.Routines.{Timestamp, RoutineId, RoutineRunId}
use bokkie.Routines.Rows.{RoutineRow, RunRow, Tables, Effect, Account, BotRow, MessageRow, TokenRow}
use bokkie.Routines.Reasons.{run_retention_ms}
use bokkie.Routines.Lookups.{fresh, is_finished}
use bokkie.Routines.RoutineChanges.{with_routine}
use bokkie.Routines.Changes.{prune}
use bokkie.Routines.Sound.{RoutineSound, Sound}
use bokkie.Routines.Writes.{get-written, get-fresh, get-removed, get-retained}

-- A routine is written over with one of the same user and Bot.
pub save-Sound :
    (t : Tables) (id : RoutineId) (old q : RoutineRow)
    → Sound t
    → get id t.routines ≡ some old
    → q.id ≡ old.id
    → q.user ≡ old.user
    → q.bot ≡ old.bot
    → RoutineSound q
    → Sound (with_routine id q t)
save-Sound t id old q v g same user bot ok = record {
  routines_ascend = insert-Ascending id q t.routines v.routines_ascend;
  runs_ascend = v.runs_ascend;
  routine_sound = λ i x h. elim (get-written id i q x t.routines h) [
    | inl (e, f) ↦
        subst (λ y. (y.id ≡ i) × RoutineSound y) f (same ∙ (v.routine_sound id old g).0 ∙ e, ok)
    | inr (e, h) ↦ v.routine_sound i x h
  ];
  run_sound = v.run_sound;
  owned = λ i r h.
      let o = v.owned i r h in
      elim (Bool-cases (id == r.routine)) [
        | inl e ↦
            let k : id ≡ r.routine = (==_iff id r.routine).0 e in
            let l : some old ≡ some o.0 =
              sym g ∙ subst (λ x. get x t.routines ≡ some o.0) (sym k) o.1 in
            let c : old ≡ o.0 = cc l in
            (
              q,
              get-insert id r.routine q t.routines ∙ rw e refl,
              user ∙ subst (λ y. y.user ≡ r.user) (sym c) o.2,
              bot ∙ subst (λ y. y.bot ≡ r.bot) (sym c) o.3,
            )
        | inr e ↦ (o.0, get-insert id r.routine q t.routines ∙ rw e o.1, o.2, o.3)
      ];
  single = v.single;
}

pub create-Sound :
    (t : Tables) (q : RoutineRow)
    → Sound t
    → q.id ≡ fresh t.routines
    → RoutineSound q
    → Sound (with_routine (fresh t.routines) q t)
create-Sound t q v n ok = record {
  routines_ascend = insert-Ascending (fresh t.routines) q t.routines v.routines_ascend;
  runs_ascend = v.runs_ascend;
  routine_sound = λ i x h. elim (get-written (fresh t.routines) i q x t.routines h) [
    | inl (e, f) ↦ subst (λ y. (y.id ≡ i) × RoutineSound y) f (n ∙ e, ok)
    | inr (e, h) ↦ v.routine_sound i x h
  ];
  run_sound = v.run_sound;
  owned = λ i r h.
      let o = v.owned i r h in
      elim (Bool-cases (fresh t.routines == r.routine)) [
        | inl e ↦
            let k : fresh t.routines ≡ r.routine = (==_iff (fresh t.routines) r.routine).0 e in
            let l : get r.routine t.routines ≡ none =
              subst (λ x. get x t.routines ≡ none) k (get-fresh t.routines) in
            cc (l, o.1)
        | inr e ↦ (o.0, get-insert (fresh t.routines) r.routine q t.routines ∙ rw e o.1, o.2, o.3)
      ];
  single = v.single;
}

-- A routine goes with its runs.
pub delete-Sound :
    (t : Tables) (id : RoutineId)
    → Sound t
    → Sound (record t {
      routines = remove id t.routines;
      runs = retain (λ _ r. not (r.routine == id)) t.runs;
    })
delete-Sound t id v = record {
  routines_ascend = remove-Ascending id t.routines v.routines_ascend;
  runs_ascend = retain-Ascending _ t.runs v.runs_ascend;
  routine_sound = λ i x h. v.routine_sound i x (get-removed id i x t.routines h).1;
  run_sound = λ i x h. v.run_sound i x (kept i x h).0;
  owned = λ i r h.
      let k = kept i r h in
      let o = v.owned i r k.0 in
      let n : (id == r.routine) ≡ false = ground (arith, k.1) in
      (o.0, get-remove id r.routine t.routines ∙ rw n o.1, o.2, o.3);
  single = λ i j x y h k. v.single i j x y (kept i x h).0 (kept j y k).0;
}
  where
    kept :
        (i : RoutineRunId) (x : RunRow)
        → get i (retain (λ _ r. not (r.routine == id)) t.runs) ≡ some x
        → (get i t.runs ≡ some x) × (not (x.routine == id) ≡ true)
    kept i x h = get-retained (λ _ r. not (r.routine == id)) i x t.runs v.runs_ascend h

pub prune-Sound : (now : Timestamp) (t : Tables) → Sound t → Sound (prune now t)
unfolding prune
prune-Sound now t v = record {
  routines_ascend = v.routines_ascend;
  runs_ascend = retain-Ascending _ t.runs v.runs_ascend;
  routine_sound = v.routine_sound;
  run_sound = λ i x h. v.run_sound i x (kept i x h);
  owned = λ i r h. v.owned i r (kept i r h);
  single = λ i j x y h k. v.single i j x y (kept i x h) (kept j y k);
}
  where
    kept :
        (i : RoutineRunId) (x : RunRow) → get i (prune now t).runs ≡ some x → get i t.runs ≡ some x
    kept i x h =
        (get-retained (λ _ r. not (leb (r.queued_at + run_retention_ms) now && is_finished r.state))
          i x t.runs v.runs_ascend h).0

-- What else the gateway writes says nothing of the routines.
pub others-Sound :
    (t : Tables) (accounts : Map Account) (bots : Map BotRow) (messages : List MessageRow)
    (tokens : List TokenRow) (effects : List Effect)
    → Sound t
    → Sound (record t {
      accounts = accounts;
      bots = bots;
      messages = messages;
      tokens = tokens;
      effects = effects;
    })
others-Sound t accounts bots messages tokens effects v = record {
  routines_ascend = v.routines_ascend;
  runs_ascend = v.runs_ascend;
  routine_sound = v.routine_sound;
  run_sound = v.run_sound;
  owned = v.owned;
  single = v.single;
}
