-- ===== src/Allowances/Buckets.antt =====
-- crates/bokkie-gateway/src/usage.rs: the subscription's rate limits, and the cache of them.
use bokkie.Prelude.{
  ℕ, ◌*◌, ◌^◌, ◌-◌, min, Bool, true, false, ◌&&◌, ◌||◌, Option, none, some, List, [], ◌∷◌, leb, ltb,
  if◌then◌else◌,
}
use bokkie.Prelude.Int.{ℤ, pos, negsuc}
use bokkie.Maps.{Map, get, insert}
use bokkie.Protocol.Routines.{Text, Timestamp}
use bokkie.Protocol.Api.{UserId, RateLimitWindow, RateLimitBucket, Allowance, Usage}
use bokkie.Protocol.Chars.{codes, same}
use bokkie.Allowances.Reported
use bokkie.Allowances.Reported.{RateLimitSnapshot, GetAccountRateLimitsResponse}

-- `saturating_mul`.
unfoldable pub seconds_to_timestamp : ℕ → Timestamp
seconds_to_timestamp seconds = min (seconds * 1000) (2 ^ 63 - 1)

unfoldable pub resets : Option ℕ → Option Timestamp
unfolding seconds_to_timestamp
resets none = none
resets (some seconds) = some (seconds_to_timestamp seconds)

unfoldable pub window : Option Reported.RateLimitWindow → Option RateLimitWindow
unfolding resets
window none = none
window (some w) = some (record {
  used_percent = w.used_percent;
  window_minutes = w.window_duration_mins;
  resets_at = resets w.resets_at;
})

-- `used_percent >= 100`.
abbrev pub used_up : ℤ → Bool
used_up (pos n) = leb 100 n
used_up (negsuc n) = false

unfoldable pub is_full_report : Option Reported.RateLimitWindow → Bool
is_full_report none = false
is_full_report (some w) = used_up w.used_percent

unfoldable pub is_full : Option RateLimitWindow → Bool
is_full none = false
is_full (some w) = used_up w.used_percent

abbrev pub is_some : Option Text → Bool
is_some none = false
is_some (some _) = true

abbrev pub unwrap_or : Text → Option Text → Text
unwrap_or id none = id
unwrap_or id (some t) = t

unfoldable pub bucket : Text → RateLimitSnapshot → RateLimitBucket
unfolding window is_full_report
bucket id s = record {
  id = unwrap_or id s.limit_id;
  name = s.limit_name;
  primary = window s.primary;
  secondary = window s.secondary;
  reached =
      is_some s.rate_limit_reached_type || is_full_report s.primary || is_full_report s.secondary;
}

unfoldable pub buckets_of : List (Text × RateLimitSnapshot) → List RateLimitBucket
buckets_of [] = []
buckets_of ((id, s) ∷ m) = bucket id s ∷ buckets_of m

unfoldable pub buckets : GetAccountRateLimitsResponse → List RateLimitBucket
unfolding buckets_of
buckets r = elim r.rate_limits_by_limit_id [
  | none ↦ bucket (codes "codex") r.rate_limits ∷ []
  | some m ↦ elim m [
    | [] ↦ bucket (codes "codex") r.rate_limits ∷ []
    | (e ∷ es) ↦ buckets_of (e ∷ es)
  ]
]

-- What is present replaces what is known.
abbrev pub replaced {ℓ} : {A : Type ℓ} → (known updated : Option A) → Option A
replaced known none = known
replaced known (some a) = some a

unfoldable pub revised : RateLimitSnapshot → (existing updated : RateLimitBucket) → RateLimitBucket
unfolding is_full
revised s existing updated =
    let primary = replaced existing.primary updated.primary in
    let secondary = replaced existing.secondary updated.secondary in
    record {
      id = existing.id;
      name = replaced existing.name updated.name;
      primary = primary;
      secondary = secondary;
      reached = is_some s.rate_limit_reached_type || is_full primary || is_full secondary;
    }

unfoldable pub merge : RateLimitSnapshot → List RateLimitBucket → List RateLimitBucket
unfolding bucket revised same
merge s [] = bucket (codes "codex") s ∷ []
merge s (b ∷ bs) =
    let updated = bucket (codes "codex") s in
    let rest = merge s bs in if same b.id updated.id then revised s b updated ∷ bs else b ∷ rest

-- Whether a window resets at a time that a test accepts.
unfoldable pub resets_when : (Timestamp → Bool) → Option RateLimitWindow → Bool
resets_when p none = false
resets_when p (some w) = elim w.resets_at [ none ↦ false | some at ↦ p at ]

unfoldable pub any_resets : (Timestamp → Bool) → List RateLimitBucket → Bool
unfolding resets_when
any_resets p [] = false
any_resets p (b ∷ bs) = resets_when p b.primary || resets_when p b.secondary || any_resets p bs

unfoldable pub stale : List RateLimitBucket → Timestamp → Bool
unfolding any_resets
stale bs now = any_resets (λ at. leb at now) bs

-- The buckets of each user; `get` and `set` of the cache are `get` and `insert`.
abbrev pub SubscriptionCache : Type 0
SubscriptionCache = Map (List RateLimitBucket)

unfoldable pub resetting : (since now : Timestamp) → SubscriptionCache → List UserId
unfolding any_resets
resetting since now [] = []
resetting since now ((user, bs) ∷ m) =
    let rest = resetting since now m in
    if any_resets (λ at. ltb since at && leb at now) bs then user ∷ rest else rest

-- `entry(user).or_default()`.
unfoldable pub known_to : UserId → SubscriptionCache → List RateLimitBucket
unfolding get
known_to user m = elim (get user m) [ none ↦ [] | some bs ↦ bs ]

-- `SubscriptionCache::update`, with the buckets that it returns.
unfoldable pub update :
    UserId → RateLimitSnapshot → SubscriptionCache → SubscriptionCache × List RateLimitBucket
unfolding known_to merge insert
update user s m = let bs = merge s (known_to user m) in (insert user bs m, bs)

unfoldable pub usage : (subscription : List RateLimitBucket) → Allowance → Usage
usage subscription allowance = record { subscription = subscription; allowance = allowance }
