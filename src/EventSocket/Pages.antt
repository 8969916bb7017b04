-- ===== src/EventSocket/Pages.antt =====
-- What a replay sends, from rows that are numbered one after another up to at least `latest`.
use bokkie.Prelude.{
  length-drop, ℕ, zero, suc, ◌+◌, ◌-◌, ◌≤◌, ◌<◌, ◌≡◌, refl, sym, subst, inl, inr, min, some, List,
  [], ◌∷◌, ◌++◌, arith, length, take, drop, All, dec_lt, ltb, Bool-cases,
}
use bokkie.Protocol.Events.{Seq, EventEnvelope, ServerFrame}
use bokkie.EventLog.Rows.{Rows, since}
use bokkie.EventLog.Numbering.{Consecutive, Consecutive-at, Consecutive-drop, rows_after-drop}
use bokkie.EventSocket.Replay.{replay_page, last_seq, events_up_to, replay}

-- The rows that a query finds: numbered one after another, the newest at least `latest`.
pub record Covers (latest : Seq) (rows : Rows) : Type 0 where
  pub gone : Seq
  pub numbered : Consecutive gone rows
  pub reaches : latest ≤ gone + length rows
  pub holds_one : 0 < latest → 0 < length rows

-- Frames that bring a client from one position to `latest`: the events between, one after another,
-- and where some of these are gone a reset.
abbrev pub Bridges : Seq → Seq → List ServerFrame → Type 0
Bridges latest sent [] = sent ≡ latest
Bridges latest sent (ServerFrame.event e ∷ rest) = (e.seq ≡ suc sent) × Bridges latest e.seq rest
Bridges latest sent (ServerFrame.reset after ∷ rest) = (after ≡ latest) × (rest ≡ [])
Bridges latest sent (_ ∷ rest) = ⊥

Consecutive-take :
    (k n : ℕ) (xs : List EventEnvelope) → Consecutive n xs → Consecutive n (take k xs)
Consecutive-take zero n xs c = tt
Consecutive-take (suc k) n [] c = tt
Consecutive-take (suc k) n (x ∷ xs) c = (c.0, Consecutive-take k (suc n) xs c.1)

last_seq-Consecutive :
    (n : Seq) (e : EventEnvelope) (rest : Rows)
    → Consecutive n (e ∷ rest)
    → last_seq e rest ≡ n + length (e ∷ rest)
unfolding last_seq
last_seq-Consecutive n e [] c = omega (arith, c.0)
last_seq-Consecutive n e (x ∷ rest) c = omega (arith, last_seq-Consecutive (suc n) x rest c.1)

events_up_to-le :
    (latest : Seq) (e : EventEnvelope) (rest : Rows)
    → e.seq ≤ latest
    → events_up_to latest (e ∷ rest) ≡ ServerFrame.event e ∷ events_up_to latest rest
unfolding events_up_to
events_up_to-le latest e rest h = ground arith

events_up_to-above :
    (latest : Seq) (e : EventEnvelope) (rest : Rows)
    → latest < e.seq
    → events_up_to latest (e ∷ rest) ≡ []
unfolding events_up_to
events_up_to-above latest e rest h = ground arith

Bridges-at :
    (latest : Seq) {s t : Seq} (tail : List ServerFrame)
    → s ≡ t
    → Bridges latest s tail
    → Bridges latest t tail
Bridges-at latest tail e b = subst (λ k. Bridges latest k tail) e b

-- A page sends its events up to `latest`, and leaves the position at its last, or at `latest`.
page-Bridges :
    (latest s : Seq) (e : EventEnvelope) (rest : Rows) (tail : List ServerFrame)
    → Consecutive s (e ∷ rest)
    → s < latest
    → Bridges latest (min (last_seq e rest) latest) tail
    → Bridges latest s (events_up_to latest (e ∷ rest) ++ tail)
page-Bridges latest s e [] tail c h b = rw (events_up_to-le latest e [] (omega (arith, c.0))) (
  c.0,
  unfold events_up_to in
      Bridges-at latest tail (omega (arith, c.0, last_seq-Consecutive s e [] c)) b,
)
page-Bridges latest s e (x ∷ rest) tail c h b =
    rw (events_up_to-le latest e (x ∷ rest) (omega (arith, c.0))) (
      c.0,
      elim (dec_lt e.seq latest) [
        | yes below ↦
            page-Bridges latest e.seq x rest tail (Consecutive-at (x ∷ rest) (sym c.0) c.1) below
              (unfold last_seq in b)
        | no past ↦
            rw (events_up_to-above latest x rest (omega (arith, c.0, c.1.0)))
              (Bridges-at latest tail (omega (arith, c.0, last_seq-Consecutive s e (x ∷ rest) c)) b)
      ],
    )

-- What a query of the loop finds: at least one event, from the client's position on or from later.
record Page (rows : Rows) (sent : Seq) : Type 0 where
  first : EventEnvelope
  rest : Rows
  start : Seq
  found : since rows sent replay_page ≡ first ∷ rest
  not_before : sent ≤ start
  numbered : Consecutive start (first ∷ rest)

Page-at :
    (start sent : Seq) (rows found : Rows)
    → since rows sent replay_page ≡ take replay_page found
    → sent ≤ start
    → 0 < length found
    → Consecutive start found
    → Page rows sent
Page-at start sent rows [] e h l c = absurd (omega arith)
Page-at start sent rows (first ∷ rest) e h l c = record {
  first = first;
  rest = take 499 rest;
  start = start;
  found = e;
  not_before = h;
  numbered = (c.0, Consecutive-take 499 (suc start) rest c.1);
}

Covers-Page :
    (latest sent : Seq) (rows : Rows) → Covers latest rows → sent < latest → Page rows sent
unfolding since
Covers-Page latest sent rows v h = elim (dec_lt sent v.gone) [
  | yes early ↦
      Page-at v.gone sent rows (drop (sent - v.gone) rows) (found (sent - v.gone) refl)
        (omega arith) (let z : sent - v.gone ≡ 0 = omega arith in rw z (omega (arith, v.holds_one)))
        (let z : sent - v.gone ≡ 0 = omega arith in rw z v.numbered)
  | no kept ↦
      Page-at sent sent rows (drop (sent - v.gone) rows) (found (sent - v.gone) refl) (omega arith)
        (omega (arith, length-drop (sent - v.gone) rows, v.reaches))
        (Consecutive-at (drop (sent - v.gone) rows) (omega arith)
          (Consecutive-drop (sent - v.gone) v.gone rows (omega (arith, v.reaches)) v.numbered))
]
  where
    found :
        (k : ℕ) → k ≡ sent - v.gone → since rows sent replay_page ≡ take replay_page (drop k rows)
    found k e = rw (e, rows_after-drop v.gone sent rows v.numbered)

-- One turn of the loop, at a page that continues from the position and at one that does not.
replay-next :
    (rows : Rows) (reads : List Rows) (sent latest : Seq) (e : EventEnvelope) (rest : Rows)
    {frames : List ServerFrame}
    → sent < latest
    → since rows sent replay_page ≡ e ∷ rest
    → e.seq ≡ suc sent
    → replay reads (min (last_seq e rest) latest) latest ≡ some frames
    → replay (rows ∷ reads) sent latest ≡ some (events_up_to latest (e ∷ rest) ++ frames)
unfolding replay
replay-next rows reads sent latest e rest h p q r = ground arith

replay-hole :
    (rows : Rows) (reads : List Rows) (sent latest : Seq) (e : EventEnvelope) (rest : Rows)
    → sent < latest
    → since rows sent replay_page ≡ e ∷ rest
    → suc sent < e.seq
    → replay (rows ∷ reads) sent latest ≡ some (ServerFrame.reset latest ∷ [])
unfolding replay
replay-hole rows reads sent latest e rest h p q = ground arith

replay-level :
    (reads : List Rows) (sent latest : Seq) → latest ≤ sent → replay reads sent latest ≡ some []
unfolding replay
replay-level [] sent latest h = ground arith
replay-level (rows ∷ reads) sent latest h = elim (Bool-cases (ltb sent latest)) [
  | inl behind ↦ absurd (ground arith)
  | inr level ↦ rw (level, replay) refl
]

-- The loop returns from a position, with frames that lead from it to `latest`.
abbrev pub Ends : List Rows → Seq → Seq → Type 0
Ends reads sent latest =
    (frames : List ServerFrame) × (replay reads sent latest ≡ some frames)
    × Bridges latest sent frames

turn-Ends :
    (rows : Rows) (reads : List Rows) (sent latest : Seq)
    → ((s : Seq) → s ≤ latest → latest ≤ s + length reads → Ends reads s latest)
    → sent < latest
    → latest ≤ sent + suc (length reads)
    → Page rows sent
    → Ends (rows ∷ reads) sent latest
turn-Ends rows reads sent latest onward behind f p = elim (dec_lt sent p.start) [
  | yes hole ↦ (
    ServerFrame.reset latest ∷ [],
    replay-hole rows reads sent latest p.first p.rest behind p.found (omega (arith, p.numbered.0)),
    (refl, refl),
  )
  | no follows ↦
      let run : Consecutive sent (p.first ∷ p.rest) =
        Consecutive-at (p.first ∷ p.rest) (omega (arith, p.not_before)) p.numbered in
      let last : last_seq p.first p.rest ≡ sent + length (p.first ∷ p.rest) =
        last_seq-Consecutive sent p.first p.rest run in
      let (frames, e, b) =
        onward (min (last_seq p.first p.rest) latest) (omega arith) (omega (arith, last)) in
      (
        events_up_to latest (p.first ∷ p.rest) ++ frames,
        replay-next rows reads sent latest p.first p.rest behind p.found run.0 e,
        page-Bridges latest sent p.first p.rest frames run behind b,
      )
]

-- With one query for each event still to send, the loop ends; and its frames lead from the position
-- asked for to `latest`, event by event, or end in a reset to `latest` where a prune left a hole.
pub replay-Bridges :
    (reads : List Rows) (sent latest : Seq)
    → All (Covers latest) reads
    → sent ≤ latest
    → latest ≤ sent + length reads
    → Ends reads sent latest
replay-Bridges [] sent latest cs h f = ([], unfold replay in ground arith, omega arith)
replay-Bridges (rows ∷ reads) sent latest cs h f = elim (dec_lt sent latest) [
  | yes behind ↦
      turn-Ends rows reads sent latest (λ s. replay-Bridges reads s latest cs.1) behind f
        (Covers-Page latest sent rows cs.0 behind)
  | no level ↦ ([], replay-level (rows ∷ reads) sent latest (omega arith), omega arith)
]
