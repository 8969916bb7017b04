-- ===== src/Tests/EventSocket.antt =====
-- The gateway's event socket: a replay over rows of which the oldest are pruned, and live events.
use bokkie.Prelude.{
  All, ◌+◌, ◌-◌, ◌≡◌, refl, Option, none, some, List, [], ◌∷◌, ◌++◌, arith, length, drop, max, true,
  false,
}
use bokkie.Protocol.Routines.{BotId}
use bokkie.Protocol.Events.{ClientFrame, Seq, Event, EventEnvelope, ServerFrame}
use bokkie.EventLog.Rows.{Rows, since, rows_after, earliest, insert_row, stored_last}
use bokkie.EventLog.Log.{latest}
use bokkie.EventLog.Guarantees.{history}
use bokkie.EventSocket.Delivery.{events_of}
use bokkie.Resume.Reads.{reads_after}
use bokkie.Resume.Broadcast.{Occurs, overall}
use bokkie.Resume.Session.{resume-Live}
use bokkie.EventLog.System.{Action, run, step, empty}
use bokkie.EventLog.Numbering.{Consecutive}
use bokkie.Connection.Machine.{State, Connection}
use bokkie.EventSocket.Replay.{last_seq, events_up_to, replay, opening}
use bokkie.EventSocket.Relay.{Arrival, relay}
use bokkie.EventSocket.Pages.{Covers, Ends, replay-Bridges}
use bokkie.EventSocket.Delivery.{Live, opening-Live}
use bokkie.EventSocket.Following.{relayed, live_events, relay-Consecutive, relay_live}

abbrev entry : Seq → EventEnvelope
entry n = record { seq = n; at = 0; event = Event.bot_error 7 [] }

abbrev rows : Rows
rows = entry 3 ∷ entry 4 ∷ entry 5 ∷ []

replayed : replay (rows ∷ []) 3 4 ≡ some (ServerFrame.event (entry 4) ∷ [])
unfolding replay events_up_to last_seq since rows_after
replayed = refl

reset : opening (some 1) 5 rows [] ≡ some (ServerFrame.reset 5 ∷ ServerFrame.live 5 ∷ [])
unfolding opening earliest
reset = refl

abbrev covered : Covers 4 rows
covered = record {
  gone = 2;
  numbered = (refl, (refl, (refl, tt)));
  reaches = omega arith;
  holds_one = λ h. omega arith;
}

replay-Bridges_example : Ends (rows ∷ []) 3 4
replay-Bridges_example = replay-Bridges (rows ∷ []) 3 4 (covered, tt) (omega arith) (omega arith)

abbrev resuming : Connection
resuming = record {
  state = State.resuming;
  failures = 1;
  last = some 3;
  synced = true;
  pings = 0;
  awaiting = none;
  unreadable = 0;
  refusals = 0;
  viewing = none;
  hidden = false;
  told = none;
  renewals = 0;
}

opening-Live_example :
    (frames : List ServerFrame) × (opening (some 3) 4 rows (rows ∷ []) ≡ some frames)
    × Live resuming frames 4
opening-Live_example = opening-Live resuming 4 rows (rows ∷ []) refl (covered, tt) (omega arith)

abbrev two : List Action
two =
    Action.begins true
    ∷ Action.emits 5 (Event.bot_error 7 []) true
    ∷ Action.emits 5 (Event.bot_error 7 []) true
    ∷ Action.commits true
    ∷ []

abbrev behind : Connection
behind = record resuming { last = some 1 }

resume-Live_example :
    let log = history 9 two in
    let check = history 9 (two ++ two) in
    let reads = reads_after 9 (two ++ two) (two ∷ []) in
    (frames : List ServerFrame) × (opening (some 1) (latest log).1 check.rows reads ≡ some frames)
    × Live behind frames (length log.live)
    × All (λ e. Occurs e (history 9 (overall (two ++ two) (two ∷ []))).live) (events_of frames)
unfolding run step empty insert_row stored_last
resume-Live_example = resume-Live 9 two two (two ∷ []) behind refl (omega arith)

abbrev own_bots : BotId → Option (Option BotId)
own_bots b = some (some b)

abbrev arrivals : List Arrival
arrivals = Arrival.live_event (entry 4) ∷ Arrival.ping ∷ Arrival.live_event (entry 5) ∷ []

relay-Consecutive_example : Consecutive 4 (relayed (relay own_bots 4 arrivals).1)
relay-Consecutive_example = relay-Consecutive own_bots 4 arrivals

-- Two events that the replay brought, and a ping, what the client shows, a check and a new event.
abbrev mixed : List Arrival
mixed =
    Arrival.live_event (entry 3)
    ∷ Arrival.text (some ClientFrame.ping)
    ∷ Arrival.live_event (entry 4)
    ∷ Arrival.text (some (ClientFrame.viewing (some 3)))
    ∷ Arrival.check true
    ∷ Arrival.live_event (entry 5)
    ∷ []

relay_live_example :
    (relayed (relay own_bots 4 mixed).1 ≡ drop (4 - 2) (live_events mixed))
    × ((relay own_bots 4 mixed).0 ≡ some (max 4 (2 + length (live_events mixed))))
relay_live_example =
    relay_live own_bots 4 2 mixed (refl, (refl, (refl, tt))) (omega arith)
      (tt, (tt, (tt, ((some 3, refl), (tt, (tt, tt))))))
