-- ===== src/Routines/Statements.antt =====
-- Each statement of crates/bokkie-gateway/src/routines/store.rs that the routines' code runs, for a
-- further property of the tables that the kinds of write keep.
use bokkie.Prelude.{
  ◌≡◌, refl, subst, inl, inr, Bool, true, ◌&&◌, Bool-cases, Option, none, some, Option-cases, List,
  [], ◌∷◌, ◌++◌, ◌==◌, arith,
}
use bokkie.Maps.{Map, get}
use bokkie.Protocol.Routines.{Text, Timestamp, RoutineId, RoutineRunId, RunState}
use bokkie.Routines.Rows.{
  UserId, RoutineRow, RunRow, Waiting, Tables, Effect, Account, BotRow, MessageRow, TokenRow,
  effect,
}
use bokkie.Routines.Lookups.{is_waiting, is_finished, is_active, fresh, filtered, tokens_of}
use bokkie.Routines.RoutineChanges.{with_routine}
use bokkie.Routines.Changes.{
  with_run, update_run, set_waiting, reschedule_waiting, set_running, finish_from, finish,
  finish_waiting, set_deadline_passed,
}
use bokkie.Routines.Outcomes.{After, AnyResult, Keeps, equal-After, returns-After}
use bokkie.Routines.Sound.{Sound, RunStep, waiting_state}
use bokkie.Routines.Writes.{step-Sound}
use bokkie.Routines.RoutineWrites.{others-Sound}

-- A property of the tables that every kind of write keeps, deletions and prunes apart.
pub record Stable (E : Tables → Type 0) : Type 0 where
  pub steps :
      (t : Tables) (id : RoutineRunId) (r s : RunRow)
      → Sound t
      → E t
      → get id t.runs ≡ some r
      → RunStep r s
      → E (with_run id s t)
  pub queues : (t : Tables) (r : RunRow) → E t → E (with_run (fresh t.runs) r t)
  pub saves : (t : Tables) (id : RoutineId) (q : RoutineRow) → E t → E (with_routine id q t)
  pub others :
      (t : Tables) (accounts : Map Account) (bots : Map BotRow) (messages : List MessageRow)
      (tokens : List TokenRow) (effects : List Effect)
      → E t
      → E (record t {
        accounts = accounts;
        bots = bots;
        messages = messages;
        tokens = tokens;
        effects = effects;
      })

abbrev pub Both : (Tables → Type 0) → Tables → Type 0
Both E t = Sound t × E t

pub filtered_lem {ℓ} :
    {V : Type ℓ} (p : V → Bool) (o : Option V) (v : V)
    → filtered p o ≡ some v
    → (o ≡ some v) × (p v ≡ true)
unfolding filtered
filtered_lem p none v h = absurd (ground arith)
filtered_lem p (some w) v h = elim (Bool-cases (p w)) [
  | inl q ↦
      let e : some w ≡ some v = rw (← h, q, filtered) refl in
      let c : w ≡ v = cc e in (e, subst (λ x. p x ≡ true) c q)
  | inr q ↦ let e : filtered p (some w) ≡ none = rw (q, filtered) refl in cc (e, h)
]

module _ {E : Tables → Type 0} (stable : Stable E) where
  pub effect-Keeps : (e : Effect) → Keeps (Both E) AnyResult (effect e)
  unfolding effect
  effect-Keeps e t v = record {
    keeps = (
      others-Sound t t.accounts t.bots t.messages t.tokens (t.effects ++ e ∷ []) v.0,
      stable.others t t.accounts t.bots t.messages t.tokens (t.effects ++ e ∷ []) v.1,
    );
    gives = λ a h. tt;
  }

  update_run-Keeps :
      (user : UserId) (id : RoutineRunId) (guard : RunRow → Bool) (f : RunRow → RunRow) (t : Tables)
      → ((r : RunRow) → guard r ≡ true → RunStep r (f r))
      → Both E t
      → After (Both E) AnyResult (update_run user id guard f) t
  unfolding update_run
  update_run-Keeps user id guard f t step v = elim (Option-cases (get id t.runs)) [
    | inl n ↦ returns-After (update_run user id guard f) t t none (rw (n, update_run) refl) v tt
    | inr (r, g) ↦ elim (Bool-cases ((r.user == user) && guard r)) [
      | inl q ↦
          let s : RunStep r (f r) = step r (ground arith) in
          returns-After (update_run user id guard f) t (with_run id (f r) t) (some (f r))
            (rw (g, q, update_run) refl)
            (step-Sound t id r (f r) v.0 g s, stable.steps t id r (f r) v.0 v.1 g s) tt
      | inr q ↦
          returns-After (update_run user id guard f) t t none (rw (g, q, update_run) refl) v tt
    ]
  ]

  pub set_waiting-Keeps :
      (user : UserId) (id : RoutineRunId) (w : Waiting) (reason : Text)
      → Keeps (Both E) AnyResult (set_waiting user id w reason)
  unfolding set_waiting
  set_waiting-Keeps user id w reason t v =
      update_run-Keeps user id _ _ t (λ r h. RunStep.waits w reason (ground arith)) v

  pub reschedule_waiting-Keeps :
      (user : UserId) (id : RoutineRunId) (at : Timestamp)
      → Keeps (Both E) AnyResult (reschedule_waiting user id at)
  unfolding reschedule_waiting
  reschedule_waiting-Keeps user id at t v =
      update_run-Keeps user id _ _ t (λ r h. RunStep.moves at (ground arith) (ground arith)) v

  pub set_running-Keeps :
      (now : Timestamp) (user : UserId) (id : RoutineRunId) (thread turn : Text)
      → Keeps (Both E) AnyResult (set_running now user id thread turn)
  unfolding set_running
  set_running-Keeps now user id thread turn t v =
      update_run-Keeps user id _ _ t (λ r h. RunStep.starts now thread turn h) v

  pub set_deadline_passed-Keeps :
      (now : Timestamp) (user : UserId) (id : RoutineRunId)
      → Keeps (Both E) AnyResult (set_deadline_passed now user id)
  unfolding set_deadline_passed
  set_deadline_passed-Keeps now user id t v =
      update_run-Keeps user id _ _ t (λ r h. RunStep.stops now (ground arith) (ground arith)) v

  finish_from-Keeps :
      (from : RunState → Bool) (now : Timestamp) (user : UserId) (id : RoutineRunId)
      (state : RunState) (reason : Option Text)
      → ((s : RunState) → from s ≡ true → is_active s ≡ true)
      → is_finished state ≡ true
      → Keeps (Both E) AnyResult (finish_from from now user id state reason)
  unfolding finish_from
  finish_from-Keeps from now user id state reason active f t v =
      equal-After (finish_from from now user id state reason) _ t t refl (
        update_run-Keeps user id (λ r. from r.state) _ t
          (λ r h.
            RunStep.ends now state reason (tokens_of r.user r.turn_id t.tokens) (active r.state h)
              f)
          v)

  pub finish-Keeps :
      (now : Timestamp) (user : UserId) (id : RoutineRunId) (state : RunState)
      (reason : Option Text)
      → is_finished state ≡ true
      → Keeps (Both E) AnyResult (finish now user id state reason)
  unfolding finish
  finish-Keeps now user id state reason f =
      finish_from-Keeps is_active now user id state reason (λ s h. h) f

  pub finish_waiting-Keeps :
      (now : Timestamp) (user : UserId) (id : RoutineRunId) (state : RunState)
      (reason : Option Text)
      → is_finished state ≡ true
      → Keeps (Both E) AnyResult (finish_waiting now user id state reason)
  unfolding finish_waiting
  finish_waiting-Keeps now user id state reason f =
      finish_from-Keeps is_waiting now user id state reason (λ s h. (waiting_state s h).0) f
