-- ===== src/Tests/Schedule.antt =====
-- A zone whose clocks never change, and one whose clocks go forward by half an hour.
use bokkie.Prelude.{
  ℕ, ◌+◌, ◌-◌, ◌*◌, ◌/◌, ◌%◌, ◌<◌, ◌≡◌, ◌↔◌, refl, none, some, [], ◌∷◌, Any, arith, ltb,
  if◌then◌else◌,
}
use bokkie.Prelude.Int.{pos}
use bokkie.Protocol.Routines.{Timestamp, TimeOfDay}
use bokkie.Protocol.Routines.Weekday.{mon}
use bokkie.Protocol.Routines.Schedule.{daily, hours}
use bokkie.Protocol.Chars.{codes}
use bokkie.Protocol.Clock.{
  from_str, display, IsValid, from_str-display, split_once, digits, new, byte_len, utf8_len,
  all_digits, parse_from,
}
use bokkie.Schedule.{
  Zone, unambiguous, gap, day_ms, hour_ms, minute_ms, minutes, times, spaced, candidates,
  candidates_from, resolve, resolve_all, runs_on, sort, sort_in, dedup, dedup_after, keep, all_far,
  occurrences, earlier, later, first_after, next_after, latest_at_or_before,
}
use bokkie.Schedule.Times.{times-hours, step_of}
use bokkie.Schedule.Occurrences.{Kept, occurrences-Kept}
use bokkie.Schedule.Next.{IsFirst, IsLatest, next_after-latest_at_or_before}

abbrev utc : Zone
utc = record {
  last_date = 3000000;
  iana_name = some (codes "UTC");
  weekday = λ d. mon;
  offset = λ d m. unambiguous (pos 0);
  to_timestamp = λ o d m. some (d * day_ms + m * minute_ms);
  following = λ t. none;
  local_date = λ t. some (t / day_ms);
}

abbrev seven : TimeOfDay
seven = record { hour = 7; minute = 0 }

-- At 2:00 of the day 100 the clocks go forward to 2:30, until which the offset is -30 minutes.
abbrev half_gap : Zone
half_gap = record utc {
  offset = λ d m.
      if ltb (d * 1440 + m) (100 * 1440 + 120)
      then unambiguous (pos 0)
      else if ltb (d * 1440 + m) (100 * 1440 + 150)
      then gap (pos 0) (pos 30)
      else unambiguous (pos 30);
  to_timestamp =
      λ o d m. elim o [ pos n ↦ some (d * day_ms + m * minute_ms - n * minute_ms) | _ ↦ none ];
  following = λ t. some (100 * day_ms + 2 * hour_ms);
}

abbrev quarter_to : TimeOfDay
quarter_to = record { hour = 0; minute = 45 }

tomorrow :
    next_after utc (daily seven) (100 * day_ms + 8 * hour_ms) ≡ some (101 * day_ms + 7 * hour_ms)
unfolding next_after occurrences candidates candidates_from resolve resolve_all runs_on times
    minutes sort sort_in dedup dedup_after keep all_far earlier later first_after
tomorrow = refl

-- Two runs of a routine half an hour apart: 1:45 and 2:45 of a day whose clocks skip 2:00 to 2:30.
half_hour_apart :
    next_after half_gap (hours 1 quarter_to) (100 * day_ms + hour_ms + 45 * minute_ms)
    ≡ some (100 * day_ms + hour_ms + 75 * minute_ms)
unfolding next_after occurrences candidates candidates_from resolve resolve_all runs_on times
    minutes spaced sort sort_in dedup dedup_after keep all_far earlier later first_after
half_hour_apart = refl

at_seven : Timestamp
at_seven = 101 * day_ms + 7 * hour_ms

occurrences-Kept_example :
    Any (λ b. b ≡ at_seven) (occurrences utc (daily seven) 100 103)
    ↔ Kept at_seven (candidates utc (daily seven) 100 103)
occurrences-Kept_example = occurrences-Kept utc (daily seven) 100 103 at_seven

next_after-latest_at_or_before_example :
    IsFirst
      (λ a. Kept a (candidates utc (daily seven) (earlier 100 1) (later utc 100 8)))
      (100 * day_ms)
      (next_after utc (daily seven) (100 * day_ms))
    × IsLatest
        (λ a. Kept a (candidates utc (daily seven) (earlier 100 8) (later utc 100 1)))
        (100 * day_ms)
        (latest_at_or_before utc (daily seven) (100 * day_ms))
next_after-latest_at_or_before_example =
    next_after-latest_at_or_before utc (daily seven) (100 * day_ms) 100 refl

times-hours_example :
    ((x : ℕ)
      → Any (λ y. y ≡ x) (times (hours 6 seven))
        ↔ ((x < 24 * 60) × (k : ℕ) × (x ≡ minutes seven % step_of 6 + k * step_of 6)))
    × Any (λ y. y ≡ minutes seven) (times (hours 6 seven))
unfolding minutes
times-hours_example = times-hours 6 seven (omega arith) (omega arith)

one_to_nineteen : times (hours 6 seven) ≡ 60 ∷ 420 ∷ 780 ∷ 1140 ∷ []
unfolding times spaced minutes
one_to_nineteen = refl

from_str-display_example :
    (from_str (codes "07:00") ≡ some seven) ↔ (IsValid seven × (display seven ≡ codes "07:00"))
from_str-display_example = from_str-display (codes "07:00") seven

no_24 : from_str (codes "24:00") ≡ none
unfolding from_str split_once digits new byte_len utf8_len all_digits parse_from
no_24 = refl
