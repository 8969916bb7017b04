-- ===== src/Tests/Allowances.antt =====
-- Two turns a day of one user, and the reports of a thread's tokens.
use bokkie.Prelude.{◌+◌, ◌≡◌, ◌≤◌, ℕ, refl, Option, none, some, List, [], ◌∷◌, map, arith}
use bokkie.Maps.{get, insert, retain}
use bokkie.Protocol.Routines.{Text}
use bokkie.Protocol.Api.{UserId, Limits}
use bokkie.Protocol.Chars.{same}
use bokkie.Routines.Lookups.{fresh}
use bokkie.Allowances.Meter.{
  Meter, count_turns, sum_tokens, reaches, allowance, limits_of, count_turn, reserve_turn,
  reported_on, prune,
}
use bokkie.Allowances.Windows.{Action, time, run, act}
use bokkie.Allowances.History.{taken, run-Within}
use bokkie.Prelude.Int.{pos}
use bokkie.Allowances.Reported.{RateLimitWindow as Window, RateLimitSnapshot}
use bokkie.Allowances.Buckets.{
  bucket, window, resets, seconds_to_timestamp, is_full_report, is_full, revised, merge, known_to,
  update,
}
use bokkie.Allowances.Sparse.{update_all}
use bokkie.Allowances.Growth.{
  Report, report_all, rises, last_total, Growing, total_of, report_all-total,
}

abbrev two_daily : Limits
two_daily = record { daily_turns = some 2; weekly_tokens = none }

abbrev meter : Meter
meter = record {
  limits = (5, two_daily) ∷ [];
  bots = (7, 5) ∷ (8, 6) ∷ [];
  turns = [];
  tokens = [];
  threads = record { user = 5; thread_id = 116 ∷ []; bot = 7; tokens_reported = 100 } ∷ [];
}

-- The third turn has no allowance left until the first has left the window and the table.
abbrev day : List Action
day =
    Action.reserves 1000 5 7
    ∷ Action.reserves 2000 5 7
    ∷ Action.reserves 3000 5 7
    ∷ Action.reserves 3000 6 8
    ∷ Action.prunes 86401000
    ∷ Action.reserves 86401000 5 7
    ∷ []

day_turns : map (λ r. r.1.at) (run day meter).turns ≡ 2000 ∷ 3000 ∷ 86401000 ∷ []
unfolding run act reserve_turn count_turn allowance limits_of count_turns sum_tokens reaches fresh
    get insert prune retain
day_turns = refl

none_counted : (later : ℕ) → count_turns 5 later [] ≤ 2
unfolding count_turns
none_counted later = omega arith

run-Within_example :
    (count_turns 5 86401000 (taken day meter meter.turns) ≤ 2)
    × (count_turns 5 86401000 (run day meter).turns
        ≡ count_turns 5 86401000 (taken day meter meter.turns))
unfolding limits_of get time
run-Within_example =
    run-Within 5 2 0 day meter refl (omega arith)
      (omega arith, (omega arith, (omega arith, (omega arith, (omega arith, (omega arith, tt))))))
      (λ later h. none_counted later) 86401000 (omega arith)

-- A total is reported twice.
abbrev reports : List Report
reports =
    record { at = 1; turn = none; total = 150 }
    ∷ record { at = 2; turn = none; total = 150 }
    ∷ record { at = 3; turn = none; total = 400 }
    ∷ []

report_all-total_example :
    (total_of (report_all 5 7 (116 ∷ []) reports meter).tokens
      ≡ total_of meter.tokens + rises 100 reports)
    × (Growing 100 reports
        → 100 + total_of (report_all 5 7 (116 ∷ []) reports meter).tokens
          ≡ last_total 100 reports + total_of meter.tokens)
unfolding reported_on same
report_all-total_example = report_all-total 5 7 (116 ∷ []) reports 100 meter refl

abbrev codex : Text
codex = 99 ∷ 111 ∷ 100 ∷ 101 ∷ 120 ∷ []

abbrev hourly : ℕ → Window
hourly percent = record {
  used_percent = pos percent;
  window_duration_mins = some (pos 60);
  resets_at = some 1000;
}

abbrev reading : Option Text → Option Window → Option Window → RateLimitSnapshot
reading name primary secondary = record {
  limit_id = none;
  limit_name = name;
  plan_type = none;
  primary = primary;
  secondary = secondary;
  rate_limit_reached_type = none;
}

-- The second reading leaves the primary window out.
abbrev readings : List (UserId × RateLimitSnapshot)
readings =
    (5, reading (some (78 ∷ [])) (some (hourly 40)) none)
    ∷ (6, reading none (some (hourly 90)) none)
    ∷ (5, reading none none (some (hourly 100)))
    ∷ []

kept_windows :
    map (λ b. b.primary) (known_to 5 (update_all readings []))
    ≡ some
        (record { used_percent = pos 40; window_minutes = some (pos 60); resets_at = some 1000000 })
      ∷ []
unfolding update_all update known_to merge bucket window resets seconds_to_timestamp is_full_report
    is_full revised get insert same
kept_windows = refl
