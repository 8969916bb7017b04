-- ===== src/Allowances/Counts.antt =====
-- Turns counted in a window as rows come and go, crates/bokkie-gateway/src/usage.rs.
use bokkie.Prelude.{ℕ, suc, ◌≤◌, ◌≡◌, Bool, false, [], ◌∷◌, arith, ◌==◌}
use bokkie.Maps.{Map, insert, retain}
use bokkie.Protocol.Routines.{Timestamp}
use bokkie.Protocol.Api.{UserId}
use bokkie.Allowances.Meter.{TurnRow, count_turns}

pub count-insert :
    (user : UserId) (now : Timestamp) (id : ℕ) (r : TurnRow) (m : Map TurnRow)
    → count_turns user now (insert id r m) ≤ suc (count_turns user now m)
unfolding count_turns insert
count-insert user now id r [] = ground arith
count-insert user now id r ((j, s) ∷ m) = ground (arith, count-insert user now id r m)

pub count-insert_other :
    (user : UserId) (now : Timestamp) (id : ℕ) (r : TurnRow) (m : Map TurnRow)
    → (r.user == user) ≡ false
    → count_turns user now (insert id r m) ≤ count_turns user now m
unfolding count_turns insert
count-insert_other user now id r [] h = ground arith
count-insert_other user now id r ((j, s) ∷ m) h =
    ground (arith, count-insert_other user now id r m h)

pub count-retain :
    (user : UserId) (now : Timestamp) (p : ℕ → TurnRow → Bool) (m : Map TurnRow)
    → count_turns user now (retain p m) ≤ count_turns user now m
unfolding count_turns retain
count-retain user now p [] = omega arith
count-retain user now p ((j, s) ∷ m) = ground (arith, count-retain user now p m)

-- Later windows count no more of the same rows.
pub count-later :
    (user : UserId) (now later : Timestamp) (m : Map TurnRow)
    → now ≤ later
    → count_turns user later m ≤ count_turns user now m
unfolding count_turns
count-later user now later [] h = omega arith
count-later user now later ((j, s) ∷ m) h = ground (arith, count-later user now later m h)
