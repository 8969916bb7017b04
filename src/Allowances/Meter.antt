-- ===== src/Allowances/Meter.antt =====
-- crates/bokkie-gateway/src/usage.rs: turns and tokens counted, and the allowance that they use. The
-- sum that the database makes of the tokens stays below 2^63.
use bokkie.Prelude.{
  ℕ, suc, ◌+◌, ◌-◌, ◌*◌, ◌^◌, min, Bool, false, not, ◌&&◌, ◌||◌, Option, none, some, List, [], ◌∷◌,
  ◌++◌, leb, ltb, ◌==◌, if◌then◌else◌,
}
use bokkie.Maps.{Map, get, insert, retain}
use bokkie.Protocol.Routines.{Text, Timestamp, BotId}
use bokkie.Protocol.Api.{UserId, Limits, Allowance}
use bokkie.Protocol.Chars.{same}
use bokkie.Schedule.{day_ms}
use bokkie.Routines.Lookups.{fresh}

abbrev pub turn_window_ms : ℕ
turn_window_ms = day_ms

abbrev pub token_window_ms : ℕ
token_window_ms = 7 * day_ms

-- A row of `turns`, and one of `token_usage`.
pub record TurnRow : Type 0 where
  pub user : UserId
  pub bot : BotId
  pub at : Timestamp

pub record TokenRow : Type 0 where
  pub user : UserId
  pub bot : BotId
  pub at : Timestamp
  pub tokens : ℕ
  pub turn_id : Option Text

-- A row of `bot_threads`, whose key is the user and the thread.
pub record ThreadRow : Type 0 where
  pub user : UserId
  pub thread_id : Text
  pub bot : BotId
  pub tokens_reported : ℕ

pub record Meter : Type 0 where
  pub limits : Map Limits
  -- Each Bot's user.
  pub bots : Map UserId
  pub turns : Map TurnRow
  pub tokens : List TokenRow
  pub threads : List ThreadRow

-- `at > now - window`, on signed numbers.
abbrev pub within : (window : ℕ) → (now at : Timestamp) → Bool
within window now at = ltb now (at + window)

unfoldable pub count_turns : UserId → Timestamp → Map TurnRow → ℕ
count_turns user now [] = 0
count_turns user now ((_, r) ∷ m) =
    let rest = count_turns user now m in
    if (r.user == user) && within turn_window_ms now r.at then suc rest else rest

unfoldable pub sum_tokens : UserId → Timestamp → List TokenRow → ℕ
sum_tokens user now [] = 0
sum_tokens user now (r ∷ rs) =
    let rest = sum_tokens user now rs in
    if (r.user == user) && within token_window_ms now r.at then r.tokens + rest else rest

-- `is_some_and(|l| used >= l)`.
unfoldable pub reaches : Option ℕ → ℕ → Bool
reaches none used = false
reaches (some l) used = leb l used

unfoldable pub allowance : Timestamp → UserId → Limits → Meter → Allowance
unfolding count_turns sum_tokens reaches
allowance now user limits t =
    let turns_today = min (count_turns user now t.turns) (2 ^ 32 - 1) in
    let tokens_this_week = sum_tokens user now t.tokens in
    record {
      limits = limits;
      turns_today = turns_today;
      tokens_this_week = tokens_this_week;
      exhausted =
          reaches limits.daily_turns turns_today || reaches limits.weekly_tokens tokens_this_week;
    }

-- `accounts::account`, whose limits are none by default.
unfoldable pub limits_of : UserId → Meter → Limits
limits_of user t = elim (get user t.limits) [
  | none ↦ record { daily_turns = none; weekly_tokens = none }
  | some l ↦ l
]

-- How a reservation went: `Ok(Some(id))`, `Ok(None)` or the error of a Bot that is not the user's.
pub data Reserved : Type 0 where
  counted : (id : ℕ) → Reserved
  exhausted not_found : Reserved

unfoldable pub count_turn : Timestamp → UserId → BotId → Meter → Meter × Reserved
unfolding fresh
count_turn now user bot t =
    let id = fresh t.turns in
    elim (get bot t.bots) [
      | none ↦ (t, not_found)
      | some owner ↦
          if owner == user
          then (
            record t { turns = insert id (record { user = user; bot = bot; at = now }) t.turns },
            counted id,
          )
          else (t, not_found)
    ]

unfoldable pub reserve_turn : Timestamp → UserId → BotId → Meter → Meter × Reserved
unfolding limits_of allowance count_turn
reserve_turn now user bot t =
    if (allowance now user (limits_of user t) t).exhausted
    then (t, exhausted)
    else count_turn now user bot t

unfoldable pub release_turn : UserId → (turn : ℕ) → Meter → Meter
release_turn user turn t = record t {
  turns = retain (λ id r. not ((id == turn) && (r.user == user))) t.turns;
}

abbrev pub is_thread : UserId → Text → ThreadRow → Bool
is_thread user thread r = (r.user == user) && same r.thread_id thread

unfoldable pub reported_on : UserId → Text → BotId → List ThreadRow → Option ℕ
unfolding same
reported_on user thread bot [] = none
reported_on user thread bot (r ∷ rs) =
    let rest = reported_on user thread bot rs in
    if is_thread user thread r && (r.bot == bot) then some r.tokens_reported else rest

unfoldable pub set_reported : UserId → Text → ℕ → List ThreadRow → List ThreadRow
unfolding same
set_reported user thread total [] = []
set_reported user thread total (r ∷ rs) =
    (if is_thread user thread r then record r { tokens_reported = total } else r)
    ∷ set_reported user thread total rs

-- `i64::try_from(total).unwrap_or(i64::MAX)`.
abbrev pub clamped : ℕ → ℕ
clamped total = min total (2 ^ 63 - 1)

-- `record_turn_tokens`, with the growth that it returns; `none` is `not_found`. `record_tokens` is
-- this without a turn.
unfoldable pub record_turn_tokens :
    Timestamp
    → UserId
    → BotId
    → (thread : Text) → (turn : Option Text) → (total : ℕ) → Meter
    → Meter × Option ℕ
unfolding reported_on set_reported
record_turn_tokens now user bot thread turn total t = elim (reported_on user thread bot t.threads) [
  | none ↦ (t, none)
  | some reported ↦
      let growth = clamped total - reported in
      let row : TokenRow = record {
        user = user;
        bot = bot;
        at = now;
        tokens = growth;
        turn_id = turn;
      } in
      (
        record t {
          threads = set_reported user thread (clamped total) t.threads;
          tokens = if ltb 0 growth then t.tokens ++ row ∷ [] else t.tokens;
        },
        some growth,
      )
]

unfoldable pub keep_tokens : Timestamp → List TokenRow → List TokenRow
keep_tokens now [] = []
keep_tokens now (r ∷ rs) =
    let rest = keep_tokens now rs in if within token_window_ms now r.at then r ∷ rest else rest

unfoldable pub prune : Timestamp → Meter → Meter
unfolding keep_tokens
prune now t = record t {
  turns = retain (λ id r. within turn_window_ms now r.at) t.turns;
  tokens = keep_tokens now t.tokens;
}
