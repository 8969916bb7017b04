-- ===== src/Connection/Handle.antt =====
-- connection.rs: `Connection::transition` and `Connection::handle`, and the transport's loop, which
-- hands the machine one input after another.
use bokkie.Prelude.{
  ℕ, Bool, true, false, ◌&&◌, Option, none, some, List, [], ◌∷◌, ◌++◌, ◌==◌, leb, if◌then◌else◌,
}
use bokkie.Protocol.Events.{ClientFrame, ServerFrame}
use bokkie.Connection.Machine.{
  State, Input, Command, Connection, wrapping_suc, saturating_suc, same, is_some, is_signed_out,
  pong_deadline, unreadable_limit,
}
use bokkie.Connection.Steps.{renew_later, say_viewing, connect, closed, resync}
use bokkie.Connection.Frames.{frame}

wake : Connection → Connection × List Command
unfolding connect
wake c = let (c', commands) = connect c in (c', Command.cancel_retry ∷ commands)

ping : Connection → Connection × List Command
ping c =
    let pings' = wrapping_suc c.pings in
    (
      record c { pings = pings'; awaiting = some pings' },
      Command.send ClientFrame.ping ∷ Command.await_pong pings' pong_deadline ∷ [],
    )

give_up : Connection → ℕ → Connection × List Command
unfolding resync
give_up c n = if same c.awaiting (some n) then resync (record c { awaiting = none }) else (c, [])

renew : Connection → ℕ → Connection × List Command
unfolding renew_later
renew c renewal =
    if renewal == c.renewals && is_some c.told
    then (let (c', later) = renew_later c in
        (c', Command.send (ClientFrame.viewing c.told) ∷ later))
    else (c, [])

refused : Connection → Option ℕ → Connection × List Command
unfolding closed
refused c code =
    let (c', commands) = closed c code in
    (c', if is_signed_out c'.state then commands else commands ++ Command.check_session ∷ [])

hear : Connection → ServerFrame → Connection × List Command
unfolding frame
hear c f = frame (record c { awaiting = none }) f

misread : Connection → Connection × List Command
unfolding resync
misread c =
    let c' = record c { awaiting = none; unreadable = saturating_suc c.unreadable } in
    if leb unreadable_limit c'.unreadable
    then (record c' { state = State.outdated }, Command.close ∷ Command.outdated ∷ [])
    else resync c'

-- The `match` of `Connection::transition`; the last clause is its `_`.
dispatch : State → Input → Connection → Connection × List Command
unfolding connect wake ping give_up renew refused hear misread closed
dispatch State.signed_out _ c = (c, [])
dispatch State.outdated Input.stop c = (record c { state = State.stopped }, [])
dispatch State.outdated _ c = (c, [])
dispatch _ Input.unauthenticated c = (
  record c { state = State.signed_out },
  Command.close ∷ Command.cancel_retry ∷ Command.signed_out ∷ [],
)
dispatch _ Input.stop c =
    (record c { state = State.stopped }, Command.close ∷ Command.cancel_retry ∷ [])
dispatch State.stopped Input.start c = connect c
dispatch (State.backing_off _ _) Input.retry_due c = connect c
dispatch (State.backing_off _ _) Input.visible c = wake c
dispatch State.live Input.visible c = ping c
dispatch State.live (Input.pong_overdue n) c = give_up c n
dispatch State.live (Input.viewing_due renewal) c = renew c renewal
dispatch State.connecting Input.opened c =
    (record c { state = State.resuming }, Command.send (ClientFrame.resume c.last) ∷ [])
dispatch State.connecting (Input.closed code) c = refused c code
dispatch State.resuming (Input.closed code) c = closed c code
dispatch State.replaying (Input.closed code) c = closed c code
dispatch State.live (Input.closed code) c = closed c code
dispatch State.resuming (Input.frame f) c = hear c f
dispatch State.replaying (Input.frame f) c = hear c f
dispatch State.live (Input.frame f) c = hear c f
dispatch State.resuming Input.unreadable c = misread c
dispatch State.replaying Input.unreadable c = misread c
dispatch State.live Input.unreadable c = misread c
dispatch _ _ c = (c, [])

unfoldable pub transition : Connection → Input → Connection × List Command
unfolding dispatch
transition c input = dispatch c.state input c

-- What an input says of the page, and whether it says anything of it.
note_page : Connection → Input → Connection × Bool
note_page c Input.visible = (record c { hidden = false }, true)
note_page c Input.hidden = (record c { hidden = true }, true)
note_page c (Input.viewing bot) = (record c { viewing = bot }, true)
note_page c _ = (c, false)

unfoldable pub handle : Connection → Input → Connection × List Command
unfolding note_page transition say_viewing
handle c input =
    let (noted, viewing) = note_page c input in
    let (moved, commands) = transition noted input in
    let (told, said) = say_viewing moved in
    if viewing then (told, commands ++ said) else (moved, commands)

-- The inputs of a whole session, one at a time, with every command asked for.
unfoldable pub run : Connection → List Input → Connection × List Command
run c [] = (c, [])
run c (input ∷ inputs) =
    let (c', commands) = handle c input in
    let (c'', rest) = run c' inputs in (c'', commands ++ rest)
