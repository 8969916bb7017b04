-- ===== src/Connection/Resources.antt =====
-- The socket and the retry timer, as the machine's commands open, close, arm and clear them.
use bokkie.Prelude.{◌≡◌, Bool, true, false, List, [], ◌∷◌, arith}
use bokkie.Connection.Machine.{State, Input, Command, Connection}
use bokkie.Connection.Handle.{handle}

-- The states in which the transport holds a socket, and those in which a retry is pending.
abbrev pub has_socket : State → Bool
has_socket State.connecting = true
has_socket State.resuming = true
has_socket State.replaying = true
has_socket State.live = true
has_socket _ = false

abbrev pub has_timer : State → Bool
has_timer (State.backing_off _ _) = true
has_timer _ = false

-- What the transport's own report does: a socket that closed is gone, and so is a timer that fired.
abbrev pub socket_at : Input → Bool → Bool
socket_at (Input.closed _) open_now = false
socket_at _ open_now = open_now

abbrev pub timer_at : Input → Bool → Bool
timer_at Input.retry_due pending = false
timer_at _ pending = pending

-- The commands open a socket only where none is open and send only on an open one, and they leave
-- it as `after` says.
abbrev pub Socket : Bool → List Command → Bool → Type 0
Socket open_now [] after = open_now ≡ after
Socket open_now (Command.connect ∷ cs) after = (open_now ≡ false) × Socket true cs after
Socket open_now (Command.send _ ∷ cs) after = (open_now ≡ true) × Socket open_now cs after
Socket open_now (Command.close ∷ cs) after = Socket false cs after
Socket open_now (_ ∷ cs) after = Socket open_now cs after

-- The commands arm the retry timer only where none is pending.
abbrev pub Timer : Bool → List Command → Bool → Type 0
Timer pending [] after = pending ≡ after
Timer pending (Command.retry_after _ ∷ cs) after = (pending ≡ false) × Timer true cs after
Timer pending (Command.cancel_retry ∷ cs) after = Timer false cs after
Timer pending (_ ∷ cs) after = Timer pending cs after

-- Whatever the transport reports in whatever state, the machine never opens a second socket and
-- never sends without one, arms no second retry, and its state says exactly whether a socket is open
-- and whether a retry is pending after the commands are carried out.
pub handle-Resources :
    (c : Connection) (input : Input)
    → Socket
        (socket_at input (has_socket c.state))
        (handle c input).1
        (has_socket (handle c input).0.state)
      × Timer
          (timer_at input (has_timer c.state))
          (handle c input).1
          (has_timer (handle c input).0.state)
unfolding handle
handle-Resources c Input.start = ground arith
handle-Resources c _ = ground arith
