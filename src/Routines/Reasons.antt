-- ===== src/Routines/Reasons.antt =====
-- crates/bokkie-gateway/src/routines/mod.rs: the limits, and `reasons`, why runs end as they do. The
-- texts stay shut: nothing depends on their letters.
use bokkie.Prelude.{ℕ, ◌*◌}
use bokkie.Protocol.Routines.{Text}
use bokkie.Protocol.Chars.{codes}
use bokkie.Schedule.{hour_ms, minute_ms, day_ms}

abbrev pub misfire_window_ms : ℕ
misfire_window_ms = 6 * hour_ms

abbrev pub busy_wait_ms : ℕ
busy_wait_ms = 30 * minute_ms

abbrev pub run_deadline_ms : ℕ
run_deadline_ms = 15 * minute_ms

abbrev pub interrupt_grace_ms : ℕ
interrupt_grace_ms = minute_ms

-- From store.rs.
abbrev pub max_routines : ℕ
max_routines = 20

abbrev pub run_retention_ms : ℕ
run_retention_ms = 90 * day_ms

abbrev pub failures_to_pause : ℕ
failures_to_pause = 3

unfoldable pub disabled : Text
disabled = codes "Your account is disabled"

unfoldable pub down : Text
down = codes "Bokkie was not running when it was due"

unfoldable pub signed_out : Text
signed_out = codes "ChatGPT was signed out for the household"

unfoldable pub waiting_signed_out : Text
waiting_signed_out = codes "Waiting for the household's ChatGPT sign-in"

unfoldable pub busy : Text
busy = codes "The Bot was busy for 30 minutes"

unfoldable pub waiting_busy : Text
waiting_busy = codes "Waiting for the Bot to finish its turn"

unfoldable pub overlap : Text
overlap = codes "The routine's previous run was still going"

unfoldable pub deadline : Text
deadline = codes "The run took longer than 15 minutes, so it was stopped"

unfoldable pub stopped : Text
stopped = codes "Stopped before it finished"

unfoldable pub out_of_tokens : Text
out_of_tokens = codes "Your token allowance ran out, so the run was stopped"

unfoldable pub turn_failed : Text
turn_failed = codes "The Bot's turn failed"

unfoldable pub restarted : Text
restarted = codes "Bokkie restarted during the run"

unfoldable pub paused : Text
paused = codes "The routine was paused before the run started"
