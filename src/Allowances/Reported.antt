-- ===== src/Allowances/Reported.antt =====
-- crates/bokkie-codex/src/protocol.rs: the rate limits that Codex reports.
use bokkie.Prelude.{ℕ, Option, List}
use bokkie.Prelude.Int.{ℤ}
use bokkie.Protocol.Routines.{Text}

pub record RateLimitWindow : Type 0 where
  pub used_percent : ℤ
  pub window_duration_mins : Option ℤ
  -- In Unix seconds, which are not negative.
  pub resets_at : Option ℕ

pub record RateLimitSnapshot : Type 0 where
  pub limit_id : Option Text
  pub limit_name : Option Text
  pub plan_type : Option Text
  pub primary : Option RateLimitWindow
  pub secondary : Option RateLimitWindow
  pub rate_limit_reached_type : Option Text

-- The map is a `BTreeMap`, in the order of its keys.
pub record GetAccountRateLimitsResponse : Type 0 where
  pub rate_limits : RateLimitSnapshot
  pub rate_limits_by_limit_id : Option (List (Text × RateLimitSnapshot))
