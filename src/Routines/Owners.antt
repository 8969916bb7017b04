-- ===== src/Routines/Owners.antt =====
-- What a routine's owner does, crates/bokkie-gateway/src/routines/mod.rs, keeps what the kinds of
-- write keep.
use bokkie.Prelude.{
  ℕ, ◌≡◌, refl, Bool, true, false, Bool-cases, Option, none, some, Option-cases, List, [], ◌∷◌, inl,
  inr, All, ◌==◌, arith, leb,
}
use bokkie.Maps.{Map, get, insert, get-Above, Ascending, Above-Ascending}
use bokkie.Protocol.Routines.{Text, Timestamp, BotId, RoutineId, RunTrigger}
use bokkie.Schedule.Zones.{Database}
use bokkie.Routines.Rows.{UserId, RoutineRow, RunRow, Tables, Failure, reads, require, not_found}
use bokkie.Routines.Reasons
use bokkie.Routines.Checks.{check_name, check_prompt}
use bokkie.Routines.Lookups.{routine, list_for_user, select, is_finished}
use bokkie.Routines.Edits.{
  CreateRoutineRequest, UpdateRoutineRequest, demand, within_limit, create_in, accepted, checked,
  is_some, or_else, with_fields, scheduled, skip_run, skip_waiting, update_in, run_now,
  set_account_zone, reschedule, reschedule_all, set_time_zone,
}
use bokkie.Routines.Outcomes.{
  AnyResult, Keeps, bind-Keeps, pure-Keeps, any_read-Keeps, reads-Keeps, batch-Keeps, if-Keeps,
  require-After, fail-After, pure-After, returns-After, refuses-After,
}
use bokkie.Routines.Sound.{RoutineSound}
use bokkie.Routines.RoutineWrites.{others-Sound}
use bokkie.Routines.Statements.{Stable, Both, effect-Keeps, filtered_lem}
use bokkie.Routines.RoutineStatements.{save-Keeps, create-Keeps}
use bokkie.Routines.Endings.{end_waiting-Keeps}
use bokkie.Routines.Batches.{own_account-Keeps, queue-Keeps, ReadSound}

scheduled-Sound :
    (name prompt : Option Text) (request : UpdateRoutineRequest) (old : RoutineRow)
    (next : Option Timestamp)
    → RoutineSound old
    → RoutineSound
        (scheduled old.paused (is_some request.schedule) next (with_fields name prompt request old))
unfolding scheduled with_fields
scheduled-Sound name prompt request old next good =
    elim (Bool-cases (or_else request.paused old.paused)) [
      | inl p ↦ rw (p, scheduled) (record { idle = λ h. refl; able = λ h. cc h })
      | inr p ↦ elim (Bool-cases old.paused) [
        | inl w ↦ rw (p, w, scheduled) (record { idle = λ h. cc h; able = λ h. omega arith })
        | inr w ↦ elim (Bool-cases (is_some request.schedule)) [
          | inl s ↦ rw (p, w, s, scheduled) (record { idle = λ h. cc h; able = λ h. good.able w })
          | inr s ↦ rw (p, w, s, scheduled) (record { idle = λ h. cc h; able = λ h. good.able w })
        ]
      ]
    ]

-- What holds of every entry found holds of every entry selected.
select-All :
    (p : RoutineRow → Bool) (P : RoutineRow → Type 0) (m : Map RoutineRow)
    → Ascending m
    → ((i : RoutineId) (q : RoutineRow) → get i m ≡ some q → P q)
    → All P (select p m)
unfolding select get
select-All p P [] a h = tt
select-All p P ((j, q) ∷ m) a h =
    let rest = select-All p P m (Above-Ascending j m a) (λ i x g. h i x (found i x g)) in
    elim (Bool-cases (p q)) [
      | inl e ↦ rw (e, select) (h j q (ground arith), rest)
      | inr e ↦ rw (e, select) rest
    ]
  where
    found : (i : RoutineId) (x : RoutineRow) → get i m ≡ some x → get i ((j, q) ∷ m) ≡ some x
    found i x g = elim (Bool-cases (j == i)) [
      | inl e ↦ let n : get i m ≡ none = get-Above j i m a (ground arith) in cc (n, g)
      | inr e ↦ rw (e, get) g
    ]

module _ {E : Tables → Type 0} (stable : Stable E) where
  require-Keeps :
      {A : Type 0} (e : Failure) (o : Option A) → Keeps (Both E) (λ a. o ≡ some a) (require e o)
  require-Keeps e o t v = require-After e o t v

  demand-Keeps : (b : Bool) → Keeps (Both E) AnyResult (demand b)
  unfolding demand
  demand-Keeps b = if-Keeps b (λ h. pure-Keeps tt tt) λ h t v. fail-After _ _ t v

  within_limit-Keeps : (n : ℕ) → Keeps (Both E) AnyResult (within_limit n)
  unfolding within_limit
  within_limit-Keeps n =
      if-Keeps (leb Reasons.max_routines n) (λ h t v. fail-After _ _ t v) λ h. pure-Keeps tt tt

  pub create_in-Keeps :
      (db : Database) (now : Timestamp) (user : UserId) (bot : BotId)
      (request : CreateRoutineRequest)
      → Keeps (Both E) AnyResult (create_in db now user bot request)
  unfolding create_in
  create_in-Keeps db now user bot request = bind-Keeps (require-Keeps _ _) λ name h.
      bind-Keeps (require-Keeps _ _) λ prompt h. bind-Keeps (demand-Keeps _) λ a h.
        bind-Keeps (own_account-Keeps stable user) λ account h.
          bind-Keeps (any_read-Keeps _) λ there h. bind-Keeps (require-Keeps _ there) λ b h.
            bind-Keeps (any_read-Keeps _) λ n h. bind-Keeps (within_limit-Keeps n) λ c h.
              bind-Keeps (create-Keeps stable now user _ (λ p. rw p refl))
                λ q h. bind-Keeps (effect-Keeps stable _) λ d h. pure-Keeps q tt

  accepted-Keeps : (o : Option Text) → Keeps (Both E) AnyResult (accepted o)
  unfolding accepted
  accepted-Keeps none = λ t v. fail-After _ _ t v
  accepted-Keeps (some w) = pure-Keeps (some w) tt

  checked-Keeps :
      (f : Text → Option Text) (o : Option Text) → Keeps (Both E) AnyResult (checked f o)
  unfolding checked
  checked-Keeps f none = pure-Keeps none tt
  checked-Keeps f (some text) = accepted-Keeps (f text)

  skip_run-Keeps : (now : Timestamp) (o : Option RunRow) → Keeps (Both E) AnyResult (skip_run now o)
  unfolding skip_run is_finished
  skip_run-Keeps now none = pure-Keeps tt tt
  skip_run-Keeps now (some r) =
      bind-Keeps (end_waiting-Keeps stable now r _ _ refl) λ a h. pure-Keeps tt tt

  skip_waiting-Keeps :
      (b : Bool) (now : Timestamp) (user : UserId) (id : RoutineId)
      → Keeps (Both E) AnyResult (skip_waiting b now user id)
  unfolding skip_waiting
  skip_waiting-Keeps false now user id = pure-Keeps tt tt
  skip_waiting-Keeps true now user id =
      bind-Keeps (any_read-Keeps _) λ active h. skip_run-Keeps now active

  -- A routine that a query reads is sound.
  read-Keeps :
      (user : UserId) (bot : BotId) (id : RoutineId)
      → Keeps (Both E) ReadSound (reads (routine user bot id))
  unfolding routine
  read-Keeps user bot id = reads-Keeps (routine user bot id) λ t v.
      elim (Option-cases (routine user bot id t)) [
        | inl n ↦ rw n tt
        | inr (q, g) ↦ rw g (v.0.routine_sound id q (filtered_lem _ (get id t.routines) q g).0).1
      ]

  required-Keeps :
      (o : Option RoutineRow) → ReadSound o → Keeps (Both E) RoutineSound (require not_found o)
  unfolding require
  required-Keeps none h t v = fail-After _ _ t v
  required-Keeps (some q) h t v = pure-After _ q t v h

  pub update_in-Keeps :
      (db : Database) (now : Timestamp) (user : UserId) (bot : BotId) (id : RoutineId)
      (request : UpdateRoutineRequest)
      → Keeps (Both E) AnyResult (update_in db now user bot id request)
  unfolding update_in
  update_in-Keeps db now user bot id request =
      bind-Keeps (checked-Keeps check_name request.name) λ name h.
        bind-Keeps (checked-Keeps check_prompt request.prompt) λ prompt h.
          bind-Keeps (demand-Keeps _) λ a h. bind-Keeps (own_account-Keeps stable user) λ account h.
            bind-Keeps (read-Keeps user bot id) λ there found.
              bind-Keeps (required-Keeps there found) λ old good.
                bind-Keeps
                  (save-Keeps stable now _ (scheduled-Sound name prompt request old _ good))
                  λ q h.
                    bind-Keeps (effect-Keeps stable _)
                      λ b h. bind-Keeps (skip_waiting-Keeps _ now user id) λ c h. pure-Keeps q tt

  pub run_now-Keeps :
      (now : Timestamp) (user : UserId) (bot : BotId) (id : RoutineId)
      → Keeps (Both E) AnyResult (run_now now user bot id)
  unfolding run_now
  run_now-Keeps now user bot id = batch-Keeps (
      bind-Keeps (read-Keeps user bot id) λ there found.
        bind-Keeps (required-Keeps there found) λ q good.
          bind-Keeps (own_account-Keeps stable user)
            λ account h. queue-Keeps stable now account q RunTrigger.manual now)

  set_account_zone-Keeps :
      (user : UserId) (name : Text) → Keeps (Both E) AnyResult (set_account_zone user name)
  unfolding set_account_zone
  set_account_zone-Keeps user name t v = elim (Option-cases (get user t.accounts)) [
    | inl n ↦
        refuses-After (set_account_zone user name) t t not_found (rw (n, set_account_zone) refl) v
    | inr (a, g) ↦
        let m = insert user (record a { time_zone = name }) t.accounts in
        returns-After (set_account_zone user name) t (record t { accounts = m }) tt
          (rw (g, set_account_zone) refl)
          (
            others-Sound t m t.bots t.messages t.tokens t.effects v.0,
            stable.others t m t.bots t.messages t.tokens t.effects v.1,
          )
          tt
  ]

  reschedule-Keeps :
      (db : Database) (now : Timestamp) (name : Text) (q : RoutineRow)
      → RoutineSound q
      → Keeps (Both E) AnyResult (reschedule db now name q)
  unfolding reschedule
  reschedule-Keeps db now name q good =
      if-Keeps q.paused (λ h. pure-Keeps tt tt)
        λ h.
          bind-Keeps (save-Keeps stable now _ (record { idle = λ p. cc (h, p); able = good.able }))
            λ q' i. effect-Keeps stable _

  reschedule_all-Keeps :
      (db : Database) (now : Timestamp) (name : Text) (qs : List RoutineRow)
      → All RoutineSound qs
      → Keeps (Both E) AnyResult (reschedule_all db now name qs)
  unfolding reschedule_all
  reschedule_all-Keeps db now name [] h = pure-Keeps tt tt
  reschedule_all-Keeps db now name (q ∷ qs) h =
      bind-Keeps (reschedule-Keeps db now name q h.0) λ a i. reschedule_all-Keeps db now name qs h.1

  list-Keeps :
      (user : UserId) → Keeps (Both E) (λ qs. All RoutineSound qs) (reads (list_for_user user))
  unfolding list_for_user
  list-Keeps user = reads-Keeps (list_for_user user) λ t v.
      select-All _ RoutineSound t.routines v.0.routines_ascend λ i q g. (v.0.routine_sound i q g).1

  pub set_time_zone-Keeps :
      (db : Database) (now : Timestamp) (user : UserId) (name : Text)
      → Keeps (Both E) AnyResult (set_time_zone db now user name)
  unfolding set_time_zone
  set_time_zone-Keeps db now user name = bind-Keeps (require-Keeps _ _) λ own h. batch-Keeps (
      bind-Keeps (set_account_zone-Keeps user own) λ a h.
        bind-Keeps (effect-Keeps stable _)
          λ b h. bind-Keeps (list-Keeps user) λ qs all. reschedule_all-Keeps db now own qs all)
