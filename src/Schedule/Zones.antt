-- ===== src/Schedule/Zones.antt =====
-- crates/bokkie-gateway/src/routines/schedule.rs: time zones by their names. The time-zone database
-- is a parameter.
use bokkie.Prelude.{ℕ, ◌||◌, Option, none, some, ◌==◌, ltb, if◌then◌else◌}
use bokkie.Protocol.Routines.{Text}
use bokkie.Protocol.Chars.{codes, trim}
use bokkie.Protocol.Clock.{byte_len}
use bokkie.Schedule.{Zone}

-- `TimeZone::get`, if it finds the zone, and `TimeZone::UTC`.
pub record Database : Type 0 where
  pub find : Text → Option Zone
  pub utc : Zone

abbrev pub max_zone_chars : ℕ
max_zone_chars = 64

unfoldable pub zone : Database → Text → Option Zone
unfolding byte_len
zone db name =
    if (byte_len name == 0) || ltb max_zone_chars (byte_len name) then none else db.find name

unfoldable pub check_time_zone : Database → Text → Option Text
unfolding trim zone
check_time_zone db name =
    let trimmed = trim name in
    elim (zone db trimmed) [
      | none ↦ none
      | some z ↦ elim z.iana_name [ none ↦ some trimmed | some own ↦ some own ]
    ]

abbrev pub default_time_zone : Text
default_time_zone = codes "Australia/Adelaide"

unfoldable pub stored_zone : Database → Text → Zone
unfolding zone
stored_zone db name = elim (zone db name) [
  | some z ↦ z
  | none ↦ elim (zone db default_time_zone) [ some z ↦ z | none ↦ db.utc ]
]
