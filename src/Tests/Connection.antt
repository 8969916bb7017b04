-- ===== src/Tests/Connection.antt =====
-- The client's connection: sessions as its tests run them, and its theorems at them.
use bokkie.Prelude.{
  ℕ, Bool, Option, length, ◌+◌, ◌≤◌, ◌≡◌, refl, ◌⊎◌, true, false, none, some, List, [], ◌∷◌, arith,
}
use bokkie.Protocol.Events.{Seq, Event, EventEnvelope, ClientFrame, ServerFrame}
use bokkie.Connection.Machine.{
  State, Input, Command, Connection, close_protocol, unreadable_limit, new,
}
use bokkie.Connection.Steps.{delay}
use bokkie.Connection.Handle.{handle, run}
use bokkie.Connection.Order.{InOrder, run-InOrder}
use bokkie.Connection.Resources.{
  Socket, Timer, has_socket, has_timer, socket_at, timer_at, handle-Resources,
}
use bokkie.Connection.Backoff.{Attempt, delays, delays_from, waits, attempts, waits-attempts}
use bokkie.Connection.Terminal.{unreadable_count, refusal_count, run-signed_out, run-new_outdated}

abbrev entry : Seq → EventEnvelope
entry n = record { seq = n; at = 0; event = Event.bot_error 7 [] }

abbrev receives : Seq → Input
receives n = Input.frame (ServerFrame.event (entry n))

-- A first connection, and then a gap in the log.
abbrev session : List Input
session =
    Input.start
    ∷ Input.opened
    ∷ Input.frame (ServerFrame.live 41)
    ∷ receives 42
    ∷ receives 42
    ∷ Input.viewing (some 7)
    ∷ receives 44
    ∷ []

session_commands :
    (run new session).1
    ≡ Command.connect
      ∷ Command.send (ClientFrame.resume none)
      ∷ Command.reload
      ∷ Command.apply (entry 42)
      ∷ Command.send (ClientFrame.viewing (some 7))
      ∷ Command.renew_viewing 1 30000
      ∷ Command.close
      ∷ Command.retry_after 250
      ∷ []
unfolding new run handle delay
session_commands = refl

session_state : (run new session).0.state ≡ State.backing_off 1 250
unfolding new run handle delay
session_state = refl

run-InOrder_example : InOrder new.last (run new session).1
unfolding new
run-InOrder_example = run-InOrder new session (λ e. cc)

abbrev shows : List Input
shows =
    Input.start
    ∷ Input.opened
    ∷ Input.frame (ServerFrame.live 41)
    ∷ Input.viewing (some 7)
    ∷ Input.hidden
    ∷ Input.visible
    ∷ []

abbrev dialling : Connection
dialling = record {
  state = State.connecting;
  failures = 4;
  last = some 41;
  synced = true;
  pings = 0;
  awaiting = none;
  unreadable = 0;
  refusals = 0;
  viewing = none;
  hidden = false;
  told = none;
  renewals = 0;
}

handle-Resources_example :
    Socket
      (socket_at (Input.closed (some 1006)) true)
      (handle dialling (Input.closed (some 1006))).1
      (has_socket (handle dialling (Input.closed (some 1006))).0.state)
    × Timer
        (timer_at (Input.closed (some 1006)) false)
        (handle dialling (Input.closed (some 1006))).1
        (has_timer (handle dialling (Input.closed (some 1006))).0.state)
handle-Resources_example = handle-Resources dialling (Input.closed (some 1006))

abbrev attempt : Bool → Option ℕ → Attempt
attempt opens code = record { opens = opens; code = code }

-- No connection, a socket that drops, and one refused for its protocol.
abbrev failing : List Attempt
failing = attempt false none ∷ attempt true (some 1006) ∷ attempt true (some 4000) ∷ []

waits-attempts_example :
    (waits (run dialling (attempts failing)).1 ≡ delays_from 4 (length failing))
    × ((run dialling (attempts failing)).0.state ≡ State.connecting)
    × ((run dialling (attempts failing)).0.failures ≡ 4 + length failing)
waits-attempts_example =
    waits-attempts failing dialling refl (omega arith) (refl, (refl, (refl, tt))) (omega arith)

delays_four : delays_from 4 3 ≡ 4000 ∷ 8000 ∷ 8000 ∷ []
unfolding delays
delays_four = refl

abbrev signed_out : Connection
signed_out = record dialling { state = State.signed_out }

run-signed_out_example :
    ((run signed_out session).1 ≡ []) × ((run signed_out session).0.state ≡ State.signed_out)
run-signed_out_example = run-signed_out signed_out session refl

abbrev refusals : List Input
refusals =
    Input.start
    ∷ Input.opened
    ∷ Input.closed (some close_protocol)
    ∷ Input.retry_due
    ∷ Input.opened
    ∷ Input.closed (some close_protocol)
    ∷ Input.retry_due
    ∷ Input.opened
    ∷ Input.closed (some close_protocol)
    ∷ []

run-new_outdated_example :
    (unreadable_limit ≤ unreadable_count refusals) ⊎ (unreadable_limit ≤ refusal_count refusals)
unfolding new run handle delay
run-new_outdated_example = run-new_outdated refusals refl
