-- ===== src/Routines/Lookups.antt =====
-- crates/bokkie-gateway/src/routines/store.rs: the queries.
use mathlib.Core.List.{reverse}
use bokkie.Prelude.{
  ℕ, suc, ◌+◌, max, Bool, true, false, not, ◌&&◌, ◌||◌, Option, none, some, List, [], ◌∷◌, length,
  leb, ◌==◌, if◌then◌else◌,
}
use bokkie.Maps.{Map, get}
use bokkie.Protocol.Routines.{Text, Timestamp, BotId, MessageId, RoutineId, RoutineRunId, RunState}
use bokkie.Protocol.Routines.RunState.{waiting, running}
use bokkie.Protocol.Chars.{same}
use bokkie.Routines.Rows.{UserId, RoutineRow, RunRow, BotRow, MessageRow, TokenRow, Tables}

unfoldable pub is_waiting : RunState → Bool
is_waiting waiting = true
is_waiting _ = false

unfoldable pub is_running : RunState → Bool
is_running running = true
is_running _ = false

-- `RunState::is_finished`.
unfoldable pub is_finished : RunState → Bool
is_finished waiting = false
is_finished running = false
is_finished _ = true

-- `state IN ('waiting', 'running')`.
unfoldable pub is_active : RunState → Bool
unfolding is_finished
is_active s = not (is_finished s)

-- The key that SQLite gives a new row: one more than the largest.
unfoldable pub fresh {ℓ} : {V : Type ℓ} → Map V → ℕ
fresh [] = 1
fresh ((k, _) ∷ m) = max (suc k) (fresh m)

unfoldable pub select {ℓ} : {V : Type ℓ} → (V → Bool) → Map V → List V
select p [] = []
select p ((_, v) ∷ m) = let rest = select p m in if p v then v ∷ rest else rest

unfoldable pub first {ℓ} : {V : Type ℓ} → List V → Option V
first [] = none
first (v ∷ _) = some v

unfoldable pub filtered {ℓ} : {V : Type ℓ} → (V → Bool) → Option V → Option V
filtered p none = none
filtered p (some v) = if p v then some v else none

unfoldable pub routine_of_user : UserId → RoutineId → Tables → Option RoutineRow
unfolding filtered
routine_of_user user id t = filtered (λ q. q.user == user) (get id t.routines)

unfoldable pub routine : UserId → BotId → RoutineId → Tables → Option RoutineRow
unfolding filtered
routine user bot id t = filtered (λ q. (q.bot == bot) && (q.user == user)) (get id t.routines)

unfoldable pub list_for_user : UserId → Tables → List RoutineRow
unfolding select
list_for_user user t = select (λ q. q.user == user) t.routines

-- `count`.
unfoldable pub count : UserId → Tables → ℕ
unfolding list_for_user
count user t = length (list_for_user user t)

unfoldable pub is_due : Timestamp → RoutineRow → Bool
is_due now q = not q.paused && elim q.next_run_at [ none ↦ false | some at ↦ leb at now ]

-- `due`, but for the order, by time and then by id.
unfoldable pub due : Timestamp → Tables → List RoutineRow
unfolding select is_due
due now t = select (is_due now) t.routines

unfoldable pub run : UserId → RoutineRunId → Tables → Option RunRow
unfolding filtered
run user id t = filtered (λ r. r.user == user) (get id t.runs)

unfoldable pub active_run : UserId → RoutineId → Tables → Option RunRow
unfolding first select is_active
active_run user id t =
    first (select (λ r. (r.routine == id) && (r.user == user) && is_active r.state) t.runs)

unfoldable pub active_runs : (RunState → Bool) → Tables → List RunRow
unfolding select
active_runs p t = select (λ r. p r.state) t.runs

-- `? IS NULL OR bot_id = ?`.
abbrev pub of_bot : Option BotId → BotId → Bool
of_bot none b = true
of_bot (some c) b = b == c

unfoldable pub running_runs_of : UserId → Option BotId → Tables → List RunRow
unfolding select is_running
running_runs_of user bot t =
    select (λ r. (r.user == user) && is_running r.state && of_bot bot r.bot) t.runs

-- `turn_id = ?`, which no missing turn is.
unfoldable pub in_turn : Option Text → Option Text → Bool
unfolding same
in_turn (some a) (some b) = same a b
in_turn _ _ = false

-- The newest first.
unfoldable pub run_of_turn : UserId → Text → Tables → Option RunRow
unfolding first select in_turn
run_of_turn user turn t =
    first (reverse (select (λ r. (r.user == user) && in_turn r.turn_id (some turn)) t.runs))

unfoldable pub is_run : Option RoutineRunId → RoutineRunId → Bool
is_run none id = false
is_run (some a) id = a == id

unfoldable pub messages_in : RunRow → List MessageRow → List MessageId
unfolding is_run in_turn
messages_in r [] = []
messages_in r (m ∷ ms) =
    let rest = messages_in r ms in
    if (m.user == r.user) && (m.bot == r.bot) && (is_run m.run r.id || in_turn m.turn r.turn_id)
    then m.id ∷ rest
    else rest

unfoldable pub run_messages : RunRow → Tables → List MessageId
unfolding messages_in
run_messages r t = messages_in r t.messages

-- `sum(t.tokens)`, which is NULL where there is no row.
unfoldable pub tokens_of : UserId → Option Text → List TokenRow → Option ℕ
unfolding in_turn
tokens_of user turn [] = none
tokens_of user turn (u ∷ us) =
    let rest = tokens_of user turn us in
    if (u.user == user) && in_turn u.turn turn
    then elim rest [ none ↦ some u.used | some n ↦ some (u.used + n) ]
    else rest

-- `bots::store::bot`.
unfoldable pub bot_of : UserId → BotId → Tables → Option BotRow
unfolding filtered
bot_of user id t = filtered (λ b. b.owner == user) (get id t.bots)
