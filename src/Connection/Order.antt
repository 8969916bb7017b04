-- ===== src/Connection/Order.antt =====
-- The order in which the machine passes events on: what a run of inputs makes the store apply.
use bokkie.Prelude.{suc, ◌≡◌, subst, true, Option, none, some, List, [], ◌∷◌, ◌++◌, arith}
use bokkie.Protocol.Events.{Seq}
use bokkie.Connection.Machine.{Input, Command, Connection, is_some}
use bokkie.Connection.Handle.{handle, run}

-- The sequence number may follow the position: a position that is not known admits any.
abbrev pub IsNext : Option Seq → Seq → Type 0
IsNext none s = Unit
IsNext (some n) s = s ≡ suc n

-- Each event applied is the next one of the log, but for the first after a reload.
abbrev pub InOrder : Option Seq → List Command → Type 0
InOrder p [] = Unit
InOrder p (Command.apply e ∷ cs) = IsNext p e.seq × InOrder (some e.seq) cs
InOrder p (Command.reload ∷ cs) = InOrder none cs
InOrder p (_ ∷ cs) = InOrder p cs

-- The position that commands leave.
abbrev pub position : Option Seq → List Command → Option Seq
position p [] = p
position p (Command.apply e ∷ cs) = position (some e.seq) cs
position p (Command.reload ∷ cs) = position none cs
position p (_ ∷ cs) = position p cs

abbrev pub Agrees : Option Seq → Option Seq → Type 0
Agrees none q = Unit
Agrees (some n) q = q ≡ some n

abbrev pub Known : Connection → Type 0
Known c = c.synced ≡ true → is_some c.last ≡ true

abbrev Kept : Connection → Connection × List Command → Type 0
Kept c r = InOrder c.last r.1 × Agrees (position c.last r.1) r.0.last × Known r.0

handle-Kept : (c : Connection) (input : Input) → Known c → Kept c (handle c input)
unfolding handle
handle-Kept c Input.start h = ground arith
handle-Kept c _ h = ground arith

InOrder-weaken : (p : Option Seq) (cs : List Command) → InOrder p cs → InOrder none cs
InOrder-weaken p [] h = tt
InOrder-weaken p (Command.apply e ∷ cs) h = (tt, h.1)
InOrder-weaken p (Command.reload ∷ cs) h = h
InOrder-weaken p (Command.connect ∷ cs) h = InOrder-weaken p cs h
InOrder-weaken p (_ ∷ cs) h = InOrder-weaken p cs h

InOrder-append :
    (p : Option Seq) (xs ys : List Command)
    → InOrder p xs
    → InOrder (position p xs) ys
    → InOrder p (xs ++ ys)
InOrder-append p [] ys hx hy = hy
InOrder-append p (Command.apply e ∷ xs) ys hx hy = (hx.0, InOrder-append (some e.seq) xs ys hx.1 hy)
InOrder-append p (Command.reload ∷ xs) ys hx hy = InOrder-append none xs ys hx hy
InOrder-append p (Command.connect ∷ xs) ys hx hy = InOrder-append p xs ys hx hy
InOrder-append p (_ ∷ xs) ys hx hy = InOrder-append p xs ys hx hy

InOrder-Agrees : (p q : Option Seq) (cs : List Command) → Agrees p q → InOrder q cs → InOrder p cs
InOrder-Agrees none q cs a h = InOrder-weaken q cs h
InOrder-Agrees (some n) q cs a h = subst (λ r. InOrder r cs) a h

-- From a machine that knows its position once it has synced, any inputs at all make the store apply
-- events one sequence number after another, from the machine's own position on: none is repeated and
-- none is skipped, except that a reload of the snapshots may stand between two of them.
pub run-InOrder : (c : Connection) (inputs : List Input) → Known c → InOrder c.last (run c inputs).1
unfolding run
run-InOrder c [] h = tt
run-InOrder c (input ∷ inputs) h =
    let (c', commands) = handle c input in
    let kept = handle-Kept c input h in
    InOrder-append c.last commands (run c' inputs).1 kept.0 (
      InOrder-Agrees (position c.last commands) c'.last (run c' inputs).1 kept.1
        (run-InOrder c' inputs kept.2))
