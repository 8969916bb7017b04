-- ===== src/EventSocket/Relay.antt =====
-- routes/events.rs, the loop of `serve`: one turn for each thing that the socket waits for. The
-- database's answer to whose Bot a client names is a parameter: `none` where it is unavailable.
use bokkie.Prelude.{
  ℕ, Bool, true, false, Option, none, some, List, [], ◌∷◌, ◌++◌, ltb, ◌==◌, if◌then◌else◌,
}
use bokkie.Protocol.Routines.{BotId}
use bokkie.Protocol.Events.{Seq, next, EventEnvelope, ClientFrame, ServerFrame}

abbrev pub close_protocol : ℕ
close_protocol = 4000

abbrev pub close_lagged : ℕ
close_lagged = 4001

abbrev pub close_signed_out : ℕ
close_signed_out = 4002

-- What arrives: from the live events, from the client, from the session check. A text message holds
-- a frame, or none that the gateway can read.
pub data Arrival : Type 0 where
  live_event : EventEnvelope → Arrival
  lagged log_closed : Arrival
  text : Option ClientFrame → Arrival
  ping pong binary gone : Arrival
  check : (alive : Bool) → Arrival

pub data Effect : Type 0 where
  send : ServerFrame → Effect
  send_ping send_pong : Effect
  -- `Viewer::show`.
  shows : Option BotId → Effect
  close : (code : ℕ) → Effect

-- The socket while its loop runs; `none` once `serve` has returned.
abbrev pub Turn : Type 0
Turn = Option Seq × List Effect

abbrev ends_with : ℕ → Turn
ends_with code = (none, Effect.close code ∷ [])

abbrev pub onward : (Seq → Turn) → Option Seq → Turn
onward continue none = (none, [])
onward continue (some s) = continue s

module _ (bot : BotId → Option (Option BotId)) where
  shown_own : Seq → Option BotId → Turn
  shown_own sent none = (some sent, Effect.shows none ∷ [])
  shown_own sent (some named) = elim (bot named) [
    | none ↦ (none, [])
    | some own ↦ (some sent, Effect.shows own ∷ [])
  ]

  relay_event : Seq → EventEnvelope → Turn
  relay_event sent e =
      if ltb sent e.seq
      then (if e.seq == next sent
          then (some e.seq, Effect.send (ServerFrame.event e) ∷ [])
          else ends_with close_lagged)
      else (some sent, [])

  unfoldable pub turn : Seq → Arrival → Turn
  unfolding shown_own relay_event
  turn sent (Arrival.live_event e) = relay_event sent e
  turn sent Arrival.lagged = ends_with close_lagged
  turn sent Arrival.log_closed = (none, [])
  turn sent (Arrival.text (some ClientFrame.ping)) = (some sent, Effect.send ServerFrame.pong ∷ [])
  turn sent (Arrival.text (some (ClientFrame.viewing named))) = shown_own sent named
  turn sent (Arrival.text (some (ClientFrame.resume after))) = ends_with close_protocol
  turn sent (Arrival.text none) = ends_with close_protocol
  turn sent Arrival.ping = (some sent, Effect.send_pong ∷ [])
  turn sent Arrival.pong = (some sent, [])
  turn sent Arrival.binary = ends_with close_protocol
  turn sent Arrival.gone = (none, [])
  turn sent (Arrival.check true) = (some sent, Effect.send_ping ∷ [])
  turn sent (Arrival.check false) = ends_with close_signed_out

  -- The loop: what arrives after it has returned is not read.
  unfoldable pub relay : Seq → List Arrival → Turn
  relay sent [] = (some sent, [])
  relay sent (a ∷ rest) =
      let (sent', effects) = turn sent a in
      let (final, later) = onward (λ s. relay s rest) sent' in (final, effects ++ later)
