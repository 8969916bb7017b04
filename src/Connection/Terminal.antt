-- ===== src/Connection/Terminal.antt =====
-- The states that nothing reconnects from, and how the machine comes to them.
use bokkie.Prelude.{ℕ, ◌+◌, ◌≤◌, ◌≡◌, ◌⊎◌, some, List, [], ◌∷◌, arith, if◌then◌else◌}
use bokkie.Connection.Machine.{
  State, Input, Connection, close_protocol, unreadable_limit, same, new,
}
use bokkie.Connection.Handle.{handle, run}

-- The user signed out of the session, or the client is too old for the gateway.
handle-signed_out :
    (c : Connection) (input : Input)
    → c.state ≡ State.signed_out
    → ((handle c input).1 ≡ []) × ((handle c input).0.state ≡ State.signed_out)
unfolding handle
handle-signed_out c Input.start h = ground arith
handle-signed_out c _ h = ground arith

abbrev is_stop : Input → ℕ
is_stop Input.stop = 1
is_stop _ = 0

abbrev pub stops : List Input → ℕ
stops [] = 0
stops (i ∷ is) = is_stop i + stops is

handle-outdated :
    (c : Connection) (input : Input)
    → c.state ≡ State.outdated
    → is_stop input ≡ 0
    → ((handle c input).1 ≡ []) × ((handle c input).0.state ≡ State.outdated)
unfolding handle
handle-outdated c Input.start h s = ground arith
handle-outdated c _ h s = ground arith

-- A machine that is signed out asks for nothing more whatever it is told, and stays signed out.
pub run-signed_out :
    (c : Connection) (inputs : List Input)
    → c.state ≡ State.signed_out
    → ((run c inputs).1 ≡ []) × ((run c inputs).0.state ≡ State.signed_out)
unfolding run
run-signed_out c [] h = ground arith
run-signed_out c (i ∷ is) h =
    ground (arith, handle-signed_out c i h, run-signed_out (handle c i).0 is)

-- A machine that is outdated asks for nothing more and stays outdated, unless it is told to stop.
pub run-outdated :
    (c : Connection) (inputs : List Input)
    → c.state ≡ State.outdated
    → stops inputs ≡ 0
    → ((run c inputs).1 ≡ []) × ((run c inputs).0.state ≡ State.outdated)
unfolding run
run-outdated c [] h s = ground arith
run-outdated c (i ∷ is) h s = ground (arith, handle-outdated c i h, run-outdated (handle c i).0 is)

-- The messages that the client could not read, and the gateway's refusals of the client's own.
abbrev misreads : Input → ℕ
misreads Input.unreadable = 1
misreads _ = 0

abbrev refuses : Input → ℕ
refuses (Input.closed code) = if same code (some close_protocol) then 1 else 0
refuses _ = 0

abbrev pub unreadable_count : List Input → ℕ
unreadable_count [] = 0
unreadable_count (i ∷ is) = misreads i + unreadable_count is

abbrev pub refusal_count : List Input → ℕ
refusal_count [] = 0
refusal_count (i ∷ is) = refuses i + refusal_count is

-- What a machine that has seen so many of each can have come to.
record Earned (u r : ℕ) (c : Connection) : Type 0 where
  misread : c.unreadable ≤ u
  refused : c.refusals ≤ r
  outdated : c.state ≡ State.outdated → (3 ≤ u) ⊎ (3 ≤ r)

handle-Earned :
    (u r : ℕ) (c : Connection) (input : Input)
    → Earned u r c
    → Earned (u + misreads input) (r + refuses input) (handle c input).0
unfolding handle
handle-Earned u r c Input.start h = ground arith
handle-Earned u r c _ h = ground arith

run-Earned :
    (u r : ℕ) (c : Connection) (inputs : List Input)
    → Earned u r c
    → Earned (u + unreadable_count inputs) (r + refusal_count inputs) (run c inputs).0
unfolding run
run-Earned u r c [] h = ground arith
run-Earned u r c (i ∷ is) h =
    let rest =
      run-Earned (u + misreads i) (r + refuses i) (handle c i).0 is (handle-Earned u r c i h) in
    ground (arith, rest)

new-Earned : Earned 0 0 new
unfolding new
new-Earned = ground arith

-- A new machine that ends outdated was given at least `unreadable_limit` messages that it could not
-- read, or at least as many refusals of its own frames.
pub run-new_outdated :
    (inputs : List Input)
    → (run new inputs).0.state ≡ State.outdated
    → (unreadable_limit ≤ unreadable_count inputs) ⊎ (unreadable_limit ≤ refusal_count inputs)
run-new_outdated inputs h =
    let earned = run-Earned 0 0 new inputs new-Earned in ground (arith, earned.outdated h)
