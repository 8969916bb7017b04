-- ===== src/Schedule.antt =====
-- crates/bokkie-gateway/src/routines/schedule.rs: when a routine runs. What the code asks of the
-- `jiff` library about a time zone is a parameter. A date is the number of days from the first one
-- that `jiff` has, and an instant is in milliseconds since 1970.
pub mod Zones
pub mod Times
pub mod Sorting
pub mod Occurrences
pub mod Next
use mathlib.Core.List.{reverse}
use mathlib.Core.Option
use bokkie.Prelude.{
  ℕ, zero, suc, ◌+◌, ◌-◌, ◌*◌, ◌/◌, ◌%◌, max, Bool, true, false, not, ◌&&◌, ◌||◌, Option, none,
  some, List, [], ◌∷◌, ◌++◌, map, ltb, leb, ◌==◌, if◌then◌else◌, holds,
}
use bokkie.Prelude.Int.{ℤ}
use bokkie.Protocol.Routines.{Weekday, Weekday-discrete, TimeOfDay, Text, Schedule, Timestamp}
use bokkie.Protocol.Routines.Weekday.{sat, sun}
use bokkie.Protocol.Routines.Schedule.{daily, weekdays, days, hours}

abbrev pub minute_ms : ℕ
minute_ms = 60 * 1000

abbrev pub hour_ms : ℕ
hour_ms = 60 * minute_ms

abbrev pub day_ms : ℕ
day_ms = 24 * hour_ms

abbrev pub Date : Type 0
Date = ℕ

abbrev pub Offset : Type 0
Offset = ℤ

-- `jiff::tz::AmbiguousOffset`.
pub data AmbiguousOffset : Type 0 where
  unambiguous : (offset : Offset) → AmbiguousOffset
  fold gap : (before after : Offset) → AmbiguousOffset

-- What `jiff` answers about a zone. A local time is a date and a minute of it.
pub record Zone : Type 0 where
  -- The last date that `jiff` has.
  pub last_date : Date
  pub iana_name : Option Text
  pub weekday : Date → Weekday
  -- `TimeZone::to_ambiguous_timestamp`.
  pub offset : Date → ℕ → AmbiguousOffset
  -- `Offset::to_timestamp`.
  pub to_timestamp : Offset → Date → ℕ → Option Timestamp
  -- The first transition that `TimeZone::following` gives.
  pub following : Timestamp → Option Timestamp
  -- `Timestamp::from_millisecond` and the date of its `to_zoned`.
  pub local_date : Timestamp → Option Date

has_day : Weekday → List Weekday → Bool
has_day d [] = false
has_day d (e ∷ es) = holds (Weekday-discrete e d) || has_day d es

-- Whether no day is in `seen` or comes twice.
all_new : List Weekday → List Weekday → Bool
unfolding has_day
all_new seen [] = true
all_new seen (d ∷ ds) = not (has_day d seen) && all_new (d ∷ seen) ds

-- `Schedule::EVERY_HOURS.contains`.
unfoldable pub allowed : ℕ → Bool
allowed every =
    (every == 1)
    || (every == 2)
    || (every == 3)
    || (every == 4)
    || (every == 6)
    || (every == 8)
    || (every == 12)

-- `check`, as whether it accepts.
unfoldable pub check : Schedule → Bool
unfolding has_day all_new allowed
check (daily _) = true
check (weekdays _) = true
check (days [] _) = false
check (days (d ∷ ds) _) = all_new [] (d ∷ ds)
check (hours every _) = allowed every

is_weekend : Weekday → Bool
is_weekend sat = true
is_weekend sun = true
is_weekend _ = false

unfoldable pub runs_on : Zone → Schedule → Date → Bool
unfolding has_day is_weekend
runs_on z (daily _) date = true
runs_on z (hours _ _) date = true
runs_on z (weekdays _) date = not (is_weekend (z.weekday date))
runs_on z (days ds _) date = has_day (z.weekday date) ds

unfoldable pub minutes : TimeOfDay → ℕ
minutes t = t.hour * 60 + t.minute

-- `(0..).map(|k| first + k * step).take_while(|m| *m < 24 * 60)`, which a step of an hour or more
-- ends within 24 rounds.
unfoldable pub spaced : ℕ → ℕ → ℕ → List ℕ
spaced zero step m = []
spaced (suc fuel) step m =
    let rest = spaced fuel step (m + step) in if ltb m (24 * 60) then m ∷ rest else []

unfoldable pub times : Schedule → List ℕ
unfolding minutes spaced
times (daily t) = minutes t ∷ []
times (weekdays t) = minutes t ∷ []
times (days _ t) = minutes t ∷ []
times (hours every t) = let step = max every 1 * 60 in spaced 24 step (minutes t % step)

pub record Candidate : Type 0 where
  pub at : Timestamp
  pub moved : Bool

unfoldable pub resolve : Zone → Date → ℕ → Option Candidate
resolve z date m = elim (z.offset date m) [
  | unambiguous o ↦ Option.map (λ a. record { at = a; moved = false }) (z.to_timestamp o date m)
  | fold before _ ↦
      Option.map (λ a. record { at = a; moved = false }) (z.to_timestamp before date m)
  | gap _ after ↦ elim (z.to_timestamp after date m) [
    | none ↦ none
    | some before_gap ↦ Option.map (λ a. record { at = a; moved = true }) (z.following before_gap)
  ]
]

unfoldable pub resolve_all : Zone → Date → List ℕ → List Candidate
unfolding resolve
resolve_all z date [] = []
resolve_all z date (m ∷ ms) =
    let rest = resolve_all z date ms in elim (resolve z date m) [ none ↦ rest | some c ↦ c ∷ rest ]

-- The candidates of `n` dates from `date` on. `Date::tomorrow` fails on the last date.
unfoldable pub candidates_from : Zone → Schedule → ℕ → Date → List Candidate
unfolding resolve_all runs_on times
candidates_from z s zero date = []
candidates_from z s (suc n) date =
    let rest = candidates_from z s n (date + 1) in
    let after = if date == z.last_date then [] else rest in
    if runs_on z s date then resolve_all z date (times s) ++ after else after

unfoldable pub candidates : Zone → Schedule → (from to : Date) → List Candidate
unfolding candidates_from
candidates z s from to = candidates_from z s (suc to - from) from

-- Whether `c` sorts before `d` or level with it, by `(at, moved)`.
abbrev pub before : Candidate → Candidate → Bool
before c d = ltb c.at d.at || ((c.at == d.at) && (not c.moved || d.moved))

-- `sort_by_key`, as an insertion sort, which is stable too.
unfoldable pub sort_in : Candidate → List Candidate → List Candidate
sort_in c [] = c ∷ []
sort_in c (d ∷ ds) = let rest = sort_in c ds in if before c d then c ∷ d ∷ ds else d ∷ rest

unfoldable pub sort : List Candidate → List Candidate
unfolding sort_in
sort [] = []
sort (c ∷ cs) = sort_in c (sort cs)

-- `dedup_by_key`: of neighbours at one instant, the first stays. `last` is the one just kept.
unfoldable pub dedup_after : Candidate → List Candidate → List Candidate
dedup_after last [] = []
dedup_after last (c ∷ cs) =
    let same = dedup_after last cs in
    let rest = dedup_after c cs in if c.at == last.at then same else c ∷ rest

unfoldable pub dedup : List Candidate → List Candidate
unfolding dedup_after
dedup [] = []
dedup (c ∷ cs) = c ∷ dedup_after c cs

-- `(a - b).abs() >= HOUR_MS`.
abbrev pub far : Timestamp → Timestamp → Bool
far a b = leb (a + hour_ms) b || leb (b + hour_ms) a

unfoldable pub all_far : Timestamp → List Candidate → Bool
all_far a [] = true
all_far a (c ∷ cs) = far c.at a && all_far a cs

-- The filter, with the candidates already passed in `passed`.
unfoldable pub keep : List Candidate → List Candidate → List Timestamp
unfolding all_far
keep passed [] = []
keep passed (c ∷ cs) =
    let rest = keep (c ∷ passed) cs in
    if not c.moved || (all_far c.at passed && all_far c.at cs) then c.at ∷ rest else rest

unfoldable pub occurrences : Zone → Schedule → (from to : Date) → List Timestamp
unfolding candidates sort dedup keep
occurrences z s from to = keep [] (dedup (sort (candidates z s from to)))

-- `around`: a shift out of the range of dates leaves the date as it is.
unfoldable pub earlier : Date → ℕ → Date
earlier date n = if leb n date then date - n else date

unfoldable pub later : Zone → Date → ℕ → Date
later z date n = if leb (date + n) z.last_date then date + n else date

unfoldable pub first_after : Timestamp → List Timestamp → Option Timestamp
first_after t [] = none
first_after t (a ∷ more) = let rest = first_after t more in if ltb t a then some a else rest

unfoldable pub first_up_to : Timestamp → List Timestamp → Option Timestamp
first_up_to t [] = none
first_up_to t (a ∷ more) = let rest = first_up_to t more in if leb a t then some a else rest

unfoldable pub next_after : Zone → Schedule → Timestamp → Option Timestamp
unfolding occurrences earlier later first_after
next_after z s t = elim (z.local_date t) [
  | none ↦ none
  | some today ↦ first_after t (occurrences z s (earlier today 1) (later z today 8))
]

unfoldable pub latest_at_or_before : Zone → Schedule → Timestamp → Option Timestamp
unfolding occurrences earlier later first_up_to
latest_at_or_before z s t = elim (z.local_date t) [
  | none ↦ none
  | some today ↦ first_up_to t (reverse (occurrences z s (earlier today 8) (later z today 1)))
]
