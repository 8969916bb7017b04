-- ===== src/Routines/Invariant.antt =====
-- What is true of the routines' tables whatever happens, crates/bokkie-gateway/src/routines.
use bokkie.Prelude.{
  ◌≡◌, refl, inl, inr, sym, ◌∙◌, subst, true, false, ◌&&◌, Bool-cases, none, some, Option-cases,
  List, [], ◌∷◌, arith, ◌==◌, ==_iff, All,
}
use bokkie.Maps.{get, get-insert}
use bokkie.Protocol.Routines.{BotId, RoutineId, RoutineRunId}
use bokkie.Schedule.Zones.{Database}
use bokkie.Routines.Rows.{UserId, RunRow, Tables}
use bokkie.Routines.Lookups.{is_active, is_finished, fresh}
use bokkie.Routines.RoutineChanges.{delete}
use bokkie.Routines.Edits.{delete_in, deleted}
use bokkie.Routines.System.{Action, act, run_all, removes, empty}
use bokkie.Routines.Outcomes.{
  AnyResult, Keeps, bind-Keeps, pure-Keeps, batch-Keeps, if-Keeps, fail-After, returns-After,
}
use bokkie.Routines.Sound.{Sound, RunStep-Follows}
use bokkie.Routines.Writes.{get-fresh}
use bokkie.Routines.RoutineWrites.{delete-Sound, prune-Sound, others-Sound}
use bokkie.Routines.Statements.{Stable, Both, effect-Keeps}
use bokkie.Routines.Endings.{end_turn-Keeps, end_running-Keeps}
use bokkie.Routines.Batches.{
  fall_due-Keeps, recover-Keeps, enforce_deadline-Keeps, wait-Keeps, end_unstarted-Keeps,
}
use bokkie.Routines.Owners.{create_in-Keeps, update_in-Keeps, run_now-Keeps, set_time_zone-Keeps}
use bokkie.Routines.Attempts.{attempt-Keeps, mark_running-Keeps}

module _ {E : Tables → Type 0} (stable : Stable E) (db : Database) where
  -- Every action but a deletion or a prune keeps what the kinds of write keep.
  pub act-Both : (a : Action) (t : Tables) → removes a ≡ false → Both E t → Both E (act db a t)
  unfolding act removes is_finished
  act-Both (Action.creates now user bot request) t n v =
      (batch-Keeps (create_in-Keeps stable db now user bot request) t v).keeps
  act-Both (Action.updates now user bot id request) t n v =
      (batch-Keeps (update_in-Keeps stable db now user bot id request) t v).keeps
  act-Both (Action.deletes user bot id) t n v = cc n
  act-Both (Action.runs_now now user bot id) t n v =
      (run_now-Keeps stable now user bot id t v).keeps
  act-Both (Action.sets_time_zone now user name) t n v =
      (set_time_zone-Keeps stable db now user name t v).keeps
  act-Both (Action.falls_due now user id) t n v = (fall_due-Keeps stable db now user id t v).keeps
  act-Both (Action.attempts now o r) t n v = (attempt-Keeps stable now o r t v).keeps
  act-Both (Action.begins now user r thread turn status) t n v =
      (mark_running-Keeps stable now user r thread turn status t v).keeps
  act-Both (Action.waits r w reason) t n v = (wait-Keeps stable r w reason t v).keeps
  act-Both (Action.skips now r reason) t n v =
      (end_unstarted-Keeps stable now r _ (some reason) refl t v).keeps
  act-Both (Action.misses now r reason) t n v =
      (end_unstarted-Keeps stable now r _ (some reason) refl t v).keeps
  act-Both (Action.fails now r reason) t n v =
      (end_unstarted-Keeps stable now r _ (some reason) refl t v).keeps
  act-Both (Action.enforces now r) t n v = (enforce_deadline-Keeps stable now r t v).keeps
  act-Both (Action.recovers now) t n v = (recover-Keeps stable now t v).keeps
  act-Both (Action.turn_ends now user turn status out) t n v =
      (batch-Keeps (end_turn-Keeps stable now user turn status out) t v).keeps
  act-Both (Action.server_stops now user bot reason) t n v =
      (batch-Keeps (end_running-Keeps stable now user bot _ reason refl) t v).keeps
  act-Both (Action.prunes now) t n v = cc n
  act-Both (Action.others accounts bots messages tokens effects) t n v = (
    others-Sound t accounts bots messages tokens effects v.0,
    stable.others t accounts bots messages tokens effects v.1,
  )

abbrev NoMore : Tables → Type 0
NoMore t = Unit

NoMore-Stable : Stable NoMore
NoMore-Stable = record {
  steps = λ t id r s v e g step. tt;
  queues = λ t r e. tt;
  saves = λ t id q e. tt;
  others = λ t a b m k f e. tt;
}

delete-Keeps :
    (user : UserId) (bot : BotId) (id : RoutineId)
    → Keeps (Both NoMore) AnyResult (delete user bot id)
unfolding delete
delete-Keeps user bot id t v = elim (Option-cases (get id t.routines)) [
  | inl n ↦ returns-After (delete user bot id) t t false (rw (n, delete) refl) v tt
  | inr (q, g) ↦ elim (Bool-cases ((q.bot == bot) && (q.user == user))) [
    | inl m ↦
        returns-After (delete user bot id) t _ true (rw (g, m, delete) refl)
          (delete-Sound t id v.0, tt) tt
    | inr m ↦ returns-After (delete user bot id) t t false (rw (g, m, delete) refl) v tt
  ]
]

delete_in-Keeps :
    (user : UserId) (bot : BotId) (id : RoutineId)
    → Keeps (Both NoMore) AnyResult (delete_in user bot id)
unfolding delete_in deleted
delete_in-Keeps user bot id = bind-Keeps (delete-Keeps user bot id) λ existed h.
    bind-Keeps {Q = AnyResult}
      (if-Keeps existed (λ i. pure-Keeps tt tt) λ i t v. fail-After _ _ t v)
      λ a i. effect-Keeps NoMore-Stable _

act-Sound : (db : Database) (a : Action) (t : Tables) → Sound t → Sound (act db a t)
unfolding act removes
act-Sound db a t v = elim (Bool-cases (removes a)) [
  | inl r ↦ removed a r
  | inr n ↦ (act-Both NoMore-Stable db a t n (v, tt)).0
]
  where
    removed : (a : Action) → removes a ≡ true → Sound (act db a t)
    removed (Action.deletes user bot id) r =
        (batch-Keeps (delete_in-Keeps user bot id) t (v, tt)).keeps.0
    removed (Action.prunes now) r = prune-Sound now t v
    removed _ r = cc r

run_all-Sound : (db : Database) (l : List Action) (t : Tables) → Sound t → Sound (run_all db l t)
unfolding run_all
run_all-Sound db [] t v = v
run_all-Sound db (a ∷ l) t v = run_all-Sound db l (act db a t) (act-Sound db a t v)

empty-Sound : Sound empty
unfolding empty get
empty-Sound = record {
  routines_ascend = tt;
  runs_ascend = tt;
  routine_sound = λ i q g. absurd (ground arith);
  run_sound = λ i r g. absurd (ground arith);
  owned = λ i r g. absurd (ground arith);
  single = λ i j r s g h e a b. absurd (ground arith);
}

-- Whatever the routines' owners, the scheduler, the turns and the rest of the gateway do, from empty
-- tables on, in any order and with rows that are out of date, the tables are sound: a routine has
-- one run at most that is waiting or running; every run is of a routine that is there, of the same
-- user and Bot; a waiting run has not started, a running one has a start and a turn and no end, and
-- a finished one has an end; a paused routine has no next run, and a routine with three failures in
-- a row is paused.
pub run_all-empty-Sound : (db : Database) (l : List Action) → Sound (run_all db l empty)
run_all-empty-Sound db l = run_all-Sound db l empty empty-Sound

-- The table of runs has this run under this key.
abbrev pub Has : RoutineRunId → RunRow → Tables → Type 0
Has id r t = get id t.runs ≡ some r

Has-Stable : (id : RoutineRunId) (r : RunRow) → is_finished r.state ≡ true → Stable (Has id r)
unfolding is_active
Has-Stable id r f = record {
  steps = λ t i x y v h g step. elim (Bool-cases (i == id)) [
    | inl e ↦
        let a : is_active x.state ≡ true = (RunStep-Follows x y step).active in
        let k : i ≡ id = (==_iff i id).0 e in
        let same : some x ≡ some r = sym g ∙ subst (λ j. get j t.runs ≡ some r) (sym k) h in
        let c : x ≡ r = cc same in
        let b : is_active r.state ≡ true = subst (λ z. is_active z.state ≡ true) c a in
        absurd (ground arith)
    | inr e ↦ get-insert i id y t.runs ∙ rw e h
  ];
  queues = λ t x h. elim (Bool-cases (fresh t.runs == id)) [
    | inl e ↦
        let k : fresh t.runs ≡ id = (==_iff (fresh t.runs) id).0 e in
        let n : get id t.runs ≡ none = subst (λ j. get j t.runs ≡ none) k (get-fresh t.runs) in
        cc (n, h)
    | inr e ↦ get-insert (fresh t.runs) id x t.runs ∙ rw e h
  ];
  saves = λ t i q h. h;
  others = λ t a b m k f h. h;
}

-- A run that has ended stays as it is, with its state, its reason, its end and its tokens, through
-- whatever else happens to sound tables, in any order and with rows that are out of date, until its
-- routine is deleted or runs are pruned.
pub run_all-finished :
    (db : Database) (l : List Action) (t : Tables) (id : RoutineRunId) (r : RunRow)
    → Sound t
    → All (λ a. removes a ≡ false) l
    → get id t.runs ≡ some r
    → is_finished r.state ≡ true
    → get id (run_all db l t).runs ≡ some r
unfolding run_all
run_all-finished db [] t id r v n h f = h
run_all-finished db (a ∷ l) t id r v n h f =
    let b = act-Both (Has-Stable id r f) db a t n.0 (v, h) in
    run_all-finished db l (act db a t) id r b.0 n.1 b.1 f
