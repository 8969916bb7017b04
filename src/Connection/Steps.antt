-- ===== src/Connection/Steps.antt =====
-- connection.rs: the helpers that the machine's transitions share.
use bokkie.Prelude.{
  ℕ, ◌-◌, ◌*◌, ◌^◌, min, not, ◌||◌, Option, none, some, List, [], ◌∷◌, leb, if◌then◌else◌,
}
use bokkie.Protocol.Routines.{BotId}
use bokkie.Protocol.Events.{ClientFrame}
use bokkie.Connection.Machine.{
  State, Command, Connection, wrapping_suc, saturating_suc, same, is_live, first_retry, last_retry,
  close_signed_out, close_protocol, unreadable_limit, viewing_renew,
}

-- `Connection::shown`.
unfoldable pub shown : Connection → Option BotId
shown c = if c.hidden then none else c.viewing

-- `Connection::delay`.
unfoldable pub delay : ℕ → ℕ
delay attempt = let doublings = min (attempt - 1) 6 in min (first_retry * 2 ^ doublings) last_retry

-- `Connection::renew_later`, whose optional command is a list of at most one.
unfoldable pub renew_later : Connection → Connection × List Command
renew_later c = elim c.told [
  | none ↦ (c, [])
  | some _ ↦
      let renewals' = wrapping_suc c.renewals in
      (record c { renewals = renewals' }, Command.renew_viewing renewals' viewing_renew ∷ [])
]

-- `Connection::say_viewing`.
unfoldable pub say_viewing : Connection → Connection × List Command
unfolding renew_later shown
say_viewing c =
    let bot = shown c in
    if not (is_live c.state) || same c.told bot
    then (c, [])
    else (let (c', later) = renew_later (record c { told = bot }) in
        (c', Command.send (ClientFrame.viewing bot) ∷ later))

-- `Connection::connect`.
unfoldable pub connect : Connection → Connection × List Command
connect c = (record c { state = State.connecting; awaiting = none }, Command.connect ∷ [])

back_off : Connection → Connection × List Command
back_off c =
    let failures' = saturating_suc c.failures in
    let wait = delay failures' in
    (
      record c { failures = failures'; state = State.backing_off failures' wait },
      Command.retry_after wait ∷ [],
    )

-- `Connection::closed`.
unfoldable pub closed : Connection → Option ℕ → Connection × List Command
unfolding back_off
closed c code =
    if same code (some close_signed_out)
    then (record c { state = State.signed_out }, Command.signed_out ∷ [])
    else (if same code (some close_protocol)
        then (let refusals' = saturating_suc c.refusals in
            if leb unreadable_limit refusals'
            then (record c { refusals = refusals'; state = State.outdated }, Command.outdated ∷ [])
            else back_off (record c { refusals = refusals' }))
        else back_off c)

-- `Connection::resync`.
unfoldable pub resync : Connection → Connection × List Command
unfolding closed
resync c = let (c', commands) = closed c none in (c', Command.close ∷ commands)
