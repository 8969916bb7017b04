-- ===== src/EventSocket/Following.antt =====
-- The gateway's live socket: the events that it relays, in what order and with none left out.
use bokkie.Prelude.{
  ℕ, suc, ◌+◌, ◌-◌, ◌≤◌, ◌<◌, ◌≡◌, refl, sym, ap, subst, ◌∙◌, Option-cases, true, false, ◌⊎◌, inl,
  inr, Option, none, some, List, [], ◌∷◌, ◌++◌, arith, length, drop, max, dec_lt,
}
use bokkie.Protocol.Routines.{BotId}
use bokkie.Protocol.Events.{Seq, EventEnvelope, ClientFrame, ServerFrame}
use bokkie.EventLog.Log.{with_retention}
use bokkie.EventLog.System.{Action, run, empty}
use bokkie.EventLog.Numbering.{Consecutive, Consecutive-at, drop-nil}
use bokkie.EventLog.Invariant.{rows-Consecutive, length-rows}
use bokkie.EventLog.Guarantees.{run-empty-Inv}
use bokkie.EventSocket.Pages.{Covers}
use bokkie.EventSocket.Relay.{Arrival, Effect, turn, relay, onward}

-- The events among what the socket sends.
abbrev pub relayed : List Effect → List EventEnvelope
relayed [] = []
relayed (Effect.send (ServerFrame.event e) ∷ es) = e ∷ relayed es
relayed (_ ∷ es) = relayed es

-- The live events among what arrives.
abbrev pub live_events : List Arrival → List EventEnvelope
live_events [] = []
live_events (Arrival.live_event e ∷ rest) = e ∷ live_events rest
live_events (_ ∷ rest) = live_events rest

-- After any history of a user's log, its table serves as the replay's queries want it, for every
-- latest number read up to then.
pub rows-Covers :
    (retention : ℕ) (actions : List Action) (latest : Seq)
    → latest ≤ length (run (with_retention retention) empty actions).log.live
    → Covers latest (run (with_retention retention) empty actions).log.rows
rows-Covers retention actions latest h =
    let v = (run-empty-Inv retention actions).stored in
    let log = (run (with_retention retention) empty actions).log in
    let r = with_retention retention in
    record {
      gone = v.gone;
      numbered = rows-Consecutive r log v;
      reaches = omega (arith, length-rows r log v);
      holds_one = λ l. omega (arith, length-rows r log v, v.retained);
    }

relayed-append : (xs ys : List Effect) → relayed (xs ++ ys) ≡ relayed xs ++ relayed ys
relayed-append [] ys = refl
relayed-append (Effect.send (ServerFrame.event e) ∷ xs) ys = ap (◌∷◌ e) (relayed-append xs ys)
relayed-append (Effect.send (ServerFrame.reset a) ∷ xs) ys = relayed-append xs ys
relayed-append (Effect.send (ServerFrame.live a) ∷ xs) ys = relayed-append xs ys
relayed-append (Effect.send ServerFrame.pong ∷ xs) ys = relayed-append xs ys
relayed-append (Effect.send_ping ∷ xs) ys = relayed-append xs ys
relayed-append (_ ∷ xs) ys = relayed-append xs ys

-- A turn relays no event and keeps the position or ends, or it relays the next event.
abbrev Outcome : Seq → Option Seq × List Effect → Type 0
Outcome sent r =
    ((relayed r.1 ≡ []) × ((r.0 ≡ none) ⊎ (r.0 ≡ some sent)))
    ⊎ ((e : EventEnvelope) × (relayed r.1 ≡ e ∷ []) × (r.0 ≡ some e.seq) × (e.seq ≡ suc sent))

event_cases :
    (sent : Seq) (e : EventEnvelope) → (e.seq ≤ sent) ⊎ ((e.seq ≡ suc sent) ⊎ (suc sent < e.seq))
event_cases sent e = omega arith

module _ (bot : BotId → Option (Option BotId)) where
  turn-Outcome : (sent : Seq) (a : Arrival) → Outcome sent (turn bot sent a)
  unfolding turn
  turn-Outcome sent (Arrival.live_event e) = elim (event_cases sent e) [
    | inl old ↦ inl (ground arith, inr (ground arith))
    | inr (inl fits) ↦ inr (e, ground arith, ground arith, fits)
    | inr (inr hole) ↦ inl (ground arith, inl (ground arith))
  ]
  turn-Outcome sent (Arrival.text none) = inl (refl, inl refl)
  turn-Outcome sent (Arrival.text (some (ClientFrame.viewing none))) = inl (refl, inr refl)
  turn-Outcome sent (Arrival.text (some (ClientFrame.viewing (some b)))) =
      elim (Option-cases (bot b)) [
        | inl e ↦ inl (ground arith, inl (ground arith))
        | inr (own, e) ↦ inl (ground arith, inr (ground arith))
      ]
  turn-Outcome sent (Arrival.text (some ClientFrame.ping)) = inl (refl, inr refl)
  turn-Outcome sent (Arrival.text (some (ClientFrame.resume _))) = inl (refl, inl refl)
  turn-Outcome sent (Arrival.check true) = inl (refl, inr refl)
  turn-Outcome sent (Arrival.check false) = inl (refl, inl refl)
  turn-Outcome sent Arrival.lagged = inl (refl, inl refl)
  turn-Outcome sent Arrival.log_closed = inl (refl, inl refl)
  turn-Outcome sent Arrival.ping = inl (refl, inr refl)
  turn-Outcome sent Arrival.pong = inl (refl, inr refl)
  turn-Outcome sent Arrival.binary = inl (refl, inl refl)
  turn-Outcome sent Arrival.gone = inl (refl, inl refl)

  onward-relayed :
      (sent : Seq) (r : Option Seq × List Effect) (continue : Seq → Option Seq × List Effect)
      → Outcome sent r
      → ((s : Seq) → Consecutive s (relayed (continue s).1))
      → Consecutive sent (relayed (r.1 ++ (onward continue r.0).1))
  onward-relayed sent r continue (inl (quiet, inl ended)) h =
      rw (relayed-append r.1 (onward continue r.0).1, quiet, ended) tt
  onward-relayed sent r continue (inl (quiet, inr stays)) h =
      rw (relayed-append r.1 (onward continue r.0).1, quiet, stays) (h sent)
  onward-relayed sent r continue (inr (e, sends, moves, fits)) h =
      rw (relayed-append r.1 (onward continue r.0).1, sends, moves)
        (fits, Consecutive-at _ fits (h e.seq))

  -- Whatever arrives, the events that a live socket relays are numbered one after another from the
  -- position that its replay ended at.
  pub relay-Consecutive :
      (sent : Seq) (arrivals : List Arrival)
      → Consecutive sent (relayed (relay bot sent arrivals).1)
  unfolding relay
  relay-Consecutive sent [] = tt
  relay-Consecutive sent (a ∷ rest) =
      onward-relayed sent (turn bot sent a) (λ s. relay bot s rest) (turn-Outcome sent a)
        (λ s. relay-Consecutive s rest)

  -- What keeps the socket: an event, a ping or what the client shows, of whom the database can say
  -- whose Bot it is, a pong, and a check of a session that is alive.
  abbrev Keeping : Arrival → Type 0
  Keeping (Arrival.live_event e) = Unit
  Keeping (Arrival.text (some ClientFrame.ping)) = Unit
  Keeping (Arrival.text (some (ClientFrame.viewing none))) = Unit
  Keeping (Arrival.text (some (ClientFrame.viewing (some b)))) =
      (own : Option BotId) × (bot b ≡ some own)
  Keeping (Arrival.text (some (ClientFrame.resume _))) = ⊥
  Keeping (Arrival.text none) = ⊥
  Keeping Arrival.ping = Unit
  Keeping Arrival.pong = Unit
  Keeping (Arrival.check true) = Unit
  Keeping (Arrival.check false) = ⊥
  Keeping Arrival.lagged = ⊥
  Keeping Arrival.log_closed = ⊥
  Keeping Arrival.binary = ⊥
  Keeping Arrival.gone = ⊥

  -- No arrival of a list ends the socket, the events aside.
  abbrev pub AllKeeping : List Arrival → Type 0
  AllKeeping [] = Unit
  AllKeeping (a ∷ rest) = Keeping a × AllKeeping rest

  -- A turn that neither is an event's nor ends the socket.
  abbrev Quiet : Seq → Arrival → Type 0
  Quiet sent a = (relayed (turn bot sent a).1 ≡ []) × ((turn bot sent a).0 ≡ some sent)

  relay-Quiet :
      (sent : Seq) (a : Arrival) (rest : List Arrival)
      → Quiet sent a
      → (relayed (relay bot sent (a ∷ rest)).1 ≡ relayed (relay bot sent rest).1)
        × ((relay bot sent (a ∷ rest)).0 ≡ (relay bot sent rest).0)
  unfolding relay
  relay-Quiet sent a rest q =
      let r = turn bot sent a in
      (
        relayed-append r.1 (onward (λ s. relay bot s rest) r.0).1 ∙ rw (q.0, q.1) refl,
        ap (λ o. (onward (λ s. relay bot s rest) o).0) q.1,
      )

  -- An arrival that keeps the socket is an event, or its turn is quiet.
  turn-Keeping :
      (sent : Seq) (a : Arrival) (rest : List Arrival)
      → Keeping a
      → ((e : EventEnvelope) × (a ≡ Arrival.live_event e))
        ⊎ ((live_events (a ∷ rest) ≡ live_events rest) × Quiet sent a)
  unfolding turn
  turn-Keeping sent (Arrival.live_event e) rest k = inl (e, refl)
  turn-Keeping sent (Arrival.text (some ClientFrame.ping)) rest k = inr (refl, (refl, refl))
  turn-Keeping sent (Arrival.text (some (ClientFrame.viewing none))) rest k =
      inr (refl, (refl, refl))
  turn-Keeping sent (Arrival.text (some (ClientFrame.viewing (some b)))) rest k =
      inr (refl, (ground (arith, k.1), ground (arith, k.1)))
  turn-Keeping sent Arrival.ping rest k = inr (refl, (refl, refl))
  turn-Keeping sent Arrival.pong rest k = inr (refl, (refl, refl))
  turn-Keeping sent (Arrival.check true) rest k = inr (refl, (refl, refl))
  turn-Keeping sent _ rest k = absurd k

  -- An event that the replay brought already is passed over, and the next one is relayed.
  event_relay :
      (sent : Seq) (e : EventEnvelope) (rest : List Arrival)
      → (e.seq ≤ sent → relay bot sent (Arrival.live_event e ∷ rest) ≡ relay bot sent rest)
        × (e.seq ≡ suc sent
            → relay bot sent (Arrival.live_event e ∷ rest) ≡ (
              (relay bot e.seq rest).0,
              Effect.send (ServerFrame.event e) ∷ (relay bot e.seq rest).1,
            ))
  unfolding relay turn
  event_relay sent e rest = (λ old. ground arith, λ fits. ground arith)

  -- From `start` on, the events are relayed that are past `sent`, and the socket goes on.
  abbrev Follows : Seq → Seq → List Arrival → Type 0
  Follows sent start arrivals =
      (relayed (relay bot sent arrivals).1 ≡ drop (sent - start) (live_events arrivals))
      × ((relay bot sent arrivals).0 ≡ some (max sent (start + length (live_events arrivals))))

  event-Follows :
      (sent start : Seq) (e : EventEnvelope) (rest : List Arrival)
      → Consecutive start (e ∷ live_events rest)
      → start ≤ sent
      → ((s n : Seq) → Consecutive n (live_events rest) → n ≤ s → Follows s n rest)
      → Follows sent start (Arrival.live_event e ∷ rest)
  event-Follows sent start e rest c h follows = elim (dec_lt start sent) [
    | yes old ↦
        let ih = follows sent (suc start) c.1 old in
        let k : sent - start ≡ suc (sent - suc start) = omega arith in
        let one = (event_relay sent e rest).0 (omega (arith, c.0)) in
        rw (one, k) (ih.0, ih.1 ∙ ap some (omega arith))
    | no new ↦
        let ih = follows e.seq e.seq (Consecutive-at _ (sym c.0) c.1) (omega arith) in
        let k : sent - start ≡ 0 = omega arith in
        let z : e.seq - e.seq ≡ 0 = omega arith in
        let one = (event_relay sent e rest).1 (omega (arith, c.0)) in
        rw (one, k) (ap (◌∷◌ e) (ih.0 ∙ rw (z) refl), ih.1 ∙ ap some (omega (arith, c.0)))
  ]

  -- Whatever arrives that does not end the socket: of the live events that were broadcast since the
  -- socket subscribed, those that the replay brought already are passed over, and every later one is
  -- relayed, so none falls between the two.
  pub relay_live :
      (sent start : Seq) (arrivals : List Arrival)
      → Consecutive start (live_events arrivals)
      → start ≤ sent
      → AllKeeping arrivals
      → (relayed (relay bot sent arrivals).1 ≡ drop (sent - start) (live_events arrivals))
        × ((relay bot sent arrivals).0 ≡ some (max sent (start + length (live_events arrivals))))
  relay_live sent start [] c h k =
      unfold relay in (sym (drop-nil (sent - start)), ap some (omega arith))
  relay_live sent start (a ∷ rest) c h k = elim (turn-Keeping sent a rest k.0) [
    | inl (e, q) ↦
        subst (λ x. Follows sent start (x ∷ rest)) (sym q)
          (event-Follows sent start e rest
            (subst (λ x. Consecutive start (live_events (x ∷ rest))) q c) h
            λ s n d i. relay_live s n rest d i k.1)
    | inr (l, q) ↦
        let r = relay-Quiet sent a rest q in
        let ih = relay_live sent start rest (subst (Consecutive start) l c) h k.1 in
        rw (l) (r.0 ∙ ih.0, r.1 ∙ ih.1)
  ]
