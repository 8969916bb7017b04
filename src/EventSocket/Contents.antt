-- ===== src/EventSocket/Contents.antt =====
-- What the replay sends are rows that its queries found.
use bokkie.Prelude.{
  ℕ, zero, suc, inl, inr, ◌||◌, Option, none, some, List, [], ◌∷◌, ◌++◌, ltb, ◌==◌, take, min, All,
  Bool-cases, Option-cases, subst,
}
use bokkie.Protocol.Events.{Seq, next, EventEnvelope, ServerFrame}
use bokkie.EventLog.Rows.{Rows, earliest, rows_after, since}
use bokkie.EventSocket.Replay.{
  sending, replay_page, last_seq, events_up_to, turn, replay, is_dropped, opening,
}
use bokkie.EventSocket.Delivery.{events_of}

module _ (P : EventEnvelope → Type 0) where
  -- Every event among the frames, where there are frames.
  abbrev pub Sends : Option (List ServerFrame) → Type 0
  Sends none = Unit
  Sends (some frames) = All P (events_of frames)

  rows_after-All : (after : Seq) (rows : Rows) → All P rows → All P (rows_after after rows)
  unfolding rows_after
  rows_after-All after [] h = tt
  rows_after-All after (r ∷ rs) h = elim (Bool-cases (ltb after r.seq)) [
    | inl q ↦ rw (q, rows_after) (h.0, rows_after-All after rs h.1)
    | inr q ↦ rw (q, rows_after) (rows_after-All after rs h.1)
  ]

  take-All : (n : ℕ) (rows : Rows) → All P rows → All P (take n rows)
  take-All zero rows h = tt
  take-All (suc n) [] h = tt
  take-All (suc n) (r ∷ rs) h = (h.0, take-All n rs h.1)

  since-All : (rows : Rows) (after : Seq) (limit : ℕ) → All P rows → All P (since rows after limit)
  unfolding since
  since-All rows after limit h =
      take-All limit (rows_after after rows) (rows_after-All after rows h)

  events_up_to-All :
      (latest : Seq) (rows : Rows) → All P rows → All P (events_of (events_up_to latest rows))
  unfolding events_up_to
  events_up_to-All latest [] h = tt
  events_up_to-All latest (r ∷ rs) h = elim (Bool-cases (ltb latest r.seq)) [
    | inl q ↦ rw (q, events_up_to) tt
    | inr q ↦ rw (q, events_up_to) (h.0, events_up_to-All latest rs h.1)
  ]

  frames-append-All :
      (xs ys : List ServerFrame)
      → All P (events_of xs)
      → All P (events_of ys)
      → All P (events_of (xs ++ ys))
  frames-append-All [] ys h k = k
  frames-append-All (ServerFrame.event e ∷ xs) ys h k = (h.0, frames-append-All xs ys h.1 k)
  frames-append-All (ServerFrame.reset a ∷ xs) ys h k = frames-append-All xs ys h k
  frames-append-All (ServerFrame.live a ∷ xs) ys h k = frames-append-All xs ys h k
  frames-append-All (ServerFrame.pong ∷ xs) ys h k = frames-append-All xs ys h k

  sending-Sends :
      (frames : List ServerFrame) (o : Option (List ServerFrame))
      → All P (events_of frames)
      → Sends o
      → Sends (sending frames o)
  sending-Sends frames none h k = tt
  sending-Sends frames (some rest) h k = frames-append-All frames rest h k

  turn-Sends :
      (continue : Seq → Option (List ServerFrame)) (sent latest : Seq) (found : Rows)
      → ((s : Seq) → Sends (continue s))
      → All P found
      → Sends (turn continue sent latest found)
  unfolding turn
  turn-Sends continue sent latest [] k h = tt
  turn-Sends continue sent latest (first ∷ rest) k h = elim (Bool-cases (first.seq == next sent)) [
    | inl q ↦
        rw (q, turn)
          (sending-Sends (events_up_to latest (first ∷ rest))
            (continue (min (last_seq first rest) latest)) (events_up_to-All latest (first ∷ rest) h)
            (k (min (last_seq first rest) latest)))
    | inr q ↦ rw (q, turn) tt
  ]

  replay-Sends :
      (reads : List Rows) (sent latest : Seq) → All (All P) reads → Sends (replay reads sent latest)
  unfolding replay
  replay-Sends [] sent latest h = elim (Bool-cases (ltb sent latest)) [
    | inl q ↦ rw (q, replay) tt
    | inr q ↦ rw (q, replay) tt
  ]
  replay-Sends (rows ∷ reads) sent latest h = elim (Bool-cases (ltb sent latest)) [
    | inl q ↦
        rw (q, replay)
          (turn-Sends (λ s. replay reads s latest) sent latest (since rows sent replay_page)
            (λ s. replay-Sends reads s latest h.1) (since-All rows sent replay_page h.0))
    | inr q ↦ rw (q, replay) tt
  ]

  -- Whatever holds of every row that the queries find holds of every event sent.
  pub opening-Sends :
      (after : Option Seq) (latest : Seq) (at_check : Rows) (reads : List Rows)
      → All (All P) reads
      → Sends (opening after latest at_check reads)
  unfolding opening
  opening-Sends none latest at_check reads h = tt
  opening-Sends (some after) latest at_check reads h =
      elim (Bool-cases (ltb latest after || is_dropped after latest (earliest at_check))) [
        | inl q ↦ rw (q, opening) tt
        | inr q ↦ elim (Option-cases (replay reads after latest)) [
          | inl e ↦ rw (q, e, opening) tt
          | inr (frames, e) ↦
              rw (q, e, opening)
                (frames-append-All frames (ServerFrame.live latest ∷ [])
                  (subst Sends e (replay-Sends reads after latest h)) tt)
        ]
      ]
