-- ===== src/EventSocket/Replay.antt =====
-- routes/events.rs, `serve` up to its loop: the frames sent once the client has asked to resume.
-- The log may grow and be pruned between two queries: `reads` holds the user's rows as each query
-- of the loop finds them. `none` means that the loop wants more queries than `reads` has.
use bokkie.Prelude.{
  ℕ, min, Bool, true, ◌&&◌, ◌||◌, Option, none, some, List, [], ◌∷◌, ◌++◌, ltb, ◌==◌, if◌then◌else◌,
}
use bokkie.Protocol.Events.{Seq, next, EventEnvelope, ServerFrame}
use bokkie.EventLog.Rows.{Rows, earliest, since}

abbrev pub replay_page : ℕ
replay_page = 500

unfoldable pub last_seq : EventEnvelope → Rows → Seq
last_seq e [] = e.seq
last_seq e (x ∷ rest) = last_seq x rest

-- The page's events, up to the first one beyond `latest`.
unfoldable pub events_up_to : Seq → Rows → List ServerFrame
events_up_to latest [] = []
events_up_to latest (e ∷ rest) =
    let later = events_up_to latest rest in
    if ltb latest e.seq then [] else ServerFrame.event e ∷ later

abbrev pub sending : List ServerFrame → Option (List ServerFrame) → Option (List ServerFrame)
sending frames none = none
sending frames (some rest) = some (frames ++ rest)

-- One turn of the loop, whose remaining turns from a position are `continue`.
unfoldable pub turn :
    (Seq → Option (List ServerFrame)) → Seq → Seq → Rows → Option (List ServerFrame)
turn continue sent latest [] = some []
turn continue sent latest (first ∷ rest) =
    if first.seq == next sent
    then sending (events_up_to latest (first ∷ rest)) (continue (min (last_seq first rest) latest))
    else some (ServerFrame.reset latest ∷ [])

unfoldable pub replay : List Rows → Seq → Seq → Option (List ServerFrame)
unfolding turn
replay [] sent latest = if ltb sent latest then none else some []
replay (rows ∷ reads) sent latest =
    let turned = turn (λ s. replay reads s latest) sent latest (since rows sent replay_page) in
    if ltb sent latest then turned else some []

-- Whether events after the client's last one are gone from the table.
abbrev pub starts_late : Seq → Option Seq → Bool
starts_late after none = true
starts_late after (some e) = ltb (next after) e

abbrev pub is_dropped : Seq → Seq → Option Seq → Bool
is_dropped after latest first = ltb after latest && starts_late after first

-- Everything that the socket sends until it is live. `at_check` are the rows when the first one is
-- looked up.
unfoldable pub opening : Option Seq → Seq → Rows → List Rows → Option (List ServerFrame)
unfolding replay
opening none latest at_check reads = some (ServerFrame.live latest ∷ [])
opening (some after) latest at_check reads =
    if ltb latest after || is_dropped after latest (earliest at_check)
    then some (ServerFrame.reset latest ∷ ServerFrame.live latest ∷ [])
    else (elim (replay reads after latest) [
      | none ↦ none
      | some frames ↦ some (frames ++ ServerFrame.live latest ∷ [])
    ])
