-- ===== src/Connection/Frames.antt =====
-- connection.rs: `Connection::frame`, what a frame from the gateway does.
use bokkie.Prelude.{
  Bool, true, false, not, ◌||◌, Option, none, some, List, [], ◌∷◌, ◌++◌, ◌==◌, leb, ltb,
  if◌then◌else◌,
}
use bokkie.Protocol.Events.{Seq, next, EventEnvelope, ServerFrame}
use bokkie.Connection.Machine.{State, Command, Connection, is_live}
use bokkie.Connection.Steps.{say_viewing, resync}

-- `Resuming` becomes `Replaying` with the first event or reset.
abbrev replaying_from : State → State
replaying_from State.resuming = State.replaying
replaying_from s = s

accept : Connection → EventEnvelope → Connection × List Command
accept c envelope = (
  record c { last = some envelope.seq; unreadable = 0; state = replaying_from c.state },
  Command.apply envelope ∷ [],
)

event_after : Option Seq → Connection → EventEnvelope → Connection × List Command
unfolding accept resync
event_after none c envelope = accept c envelope
event_after (some last) c envelope =
    if leb envelope.seq last
    then (c, [])
    else if envelope.seq == next last
    then accept c envelope
    else resync c

abbrev is_ahead : Option Seq → Seq → Bool
is_ahead none latest = false
is_ahead (some last) latest = ltb latest last

go_live : Connection → Seq → Connection × List Command
unfolding say_viewing
go_live c latest =
    let reloads = not c.synced || is_ahead c.last latest in
    let (c', said) = say_viewing (record c {
      last = some latest;
      state = State.live;
      failures = 0;
      refusals = 0;
      synced = reloads || c.synced;
      told = none;
    }) in
    (c', (if reloads then Command.reload ∷ [] else []) ++ said)

live_after : Option Seq → Connection → Seq → Connection × List Command
unfolding go_live resync
live_after none c latest = go_live c latest
live_after (some last) c latest = if ltb last latest then resync c else go_live c latest

unfoldable pub frame : Connection → ServerFrame → Connection × List Command
unfolding event_after live_after
frame c (ServerFrame.event envelope) = event_after c.last c envelope
frame c (ServerFrame.live latest) = if is_live c.state then (c, []) else live_after c.last c latest
frame c (ServerFrame.reset after) = (
  record c { last = some after; synced = true; state = replaying_from c.state },
  Command.reload ∷ [],
)
frame c ServerFrame.pong = (c, [])
