-- ===== src/EventLog/Rows.antt =====
-- events.rs: what the SQL statements do to one user's rows of the table `events`, which stand in the
-- order of the primary key (user_id, seq). A row's body is the event itself: the encoding to JSON
-- and back is the encoder's.
use bokkie.Prelude.{
  ℕ, Option, none, some, List, [], ◌∷◌, ltb, leb, ◌==◌, max, min, if◌then◌else◌, take,
}
use bokkie.Protocol.Events.{Seq, EventEnvelope}

abbrev pub Rows : Type 0
Rows = List EventEnvelope

-- INSERT, which the primary key refuses where the number is taken.
unfoldable pub insert_row : EventEnvelope → Rows → Option Rows
insert_row e [] = some (e ∷ [])
insert_row e (r ∷ rs) =
    let later = insert_row e rs in
    if e.seq == r.seq
    then none
    else (if ltb e.seq r.seq
        then some (e ∷ r ∷ rs)
        else elim later [ none ↦ none | some rs' ↦ some (r ∷ rs') ])

-- SELECT max(seq), or 0 for NULL.
unfoldable pub stored_last : Rows → Seq
stored_last [] = 0
stored_last (r ∷ rs) = max r.seq (stored_last rs)

-- SELECT min(seq).
unfoldable pub earliest : Rows → Option Seq
earliest [] = none
earliest (r ∷ rs) = elim (earliest rs) [ none ↦ some r.seq | some s ↦ some (min r.seq s) ]

-- WHERE seq > after.
unfoldable pub rows_after : Seq → Rows → Rows
rows_after after [] = []
rows_after after (r ∷ rs) =
    let rest = rows_after after rs in if ltb after r.seq then r ∷ rest else rest

-- `EventLog::since`.
unfoldable pub since : Rows → Seq → ℕ → Rows
since rows after limit = take limit (rows_after after rows)

-- DELETE WHERE seq <= up_to.
unfoldable pub delete_up_to : Seq → Rows → Rows
delete_up_to up_to [] = []
delete_up_to up_to (r ∷ rs) =
    let rest = delete_up_to up_to rs in if leb r.seq up_to then rest else r ∷ rest
