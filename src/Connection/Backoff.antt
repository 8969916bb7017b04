-- ===== src/Connection/Backoff.antt =====
-- The reconnection delays, and what a machine that backs off holds.
use bokkie.Prelude.{
  ℕ, zero, suc, ◌+◌, ◌-◌, ◌*◌, ◌≤◌, ◌<◌, ◌≡◌, refl, sym, ap, ◌∙◌, length, subst, inl, inr, min,
  Bool, true, false, Bool-cases, Option, none, some, List, [], ◌∷◌, ◌++◌, arith, leb, if◌then◌else◌,
}
use bokkie.Protocol.Events.{ClientFrame}
use bokkie.Connection.Machine.{
  State, Input, Command, Connection, same, first_retry, last_retry, u32_max, close_signed_out,
  close_protocol, unreadable_limit, saturating_suc, is_signed_out,
}
use bokkie.Connection.Steps.{delay, closed}
use bokkie.Connection.Handle.{handle, run}

-- The reference for `Connection::delay`: 250 ms, doubled before each further attempt, and capped.
unfoldable pub delays : ℕ → ℕ
delays zero = first_retry
delays (suc n) = min (2 * delays n) last_retry

delays_bounds : (n : ℕ) → (first_retry ≤ delays n) × (delays n ≤ last_retry)
unfolding delays
delays_bounds zero = omega arith
delays_bounds (suc n) = omega (arith, delays_bounds n)

delay_capped : (a : ℕ) → 7 ≤ a → delay a ≡ last_retry
unfolding delay
delay_capped a h = let six : min (a - 1) 6 ≡ 6 = omega arith in rw (six, delay)

-- The delay before the attempt of each number is the reference's.
delay-suc : (n : ℕ) → delay (suc n) ≡ delays n
unfolding delays
delay-suc zero = unfold delay in refl
delay-suc (suc zero) = unfold delay in refl
delay-suc (suc (suc zero)) = unfold delay in refl
delay-suc (suc (suc (suc zero))) = unfold delay in refl
delay-suc (suc (suc (suc (suc zero)))) = unfold delay in refl
delay-suc (suc (suc (suc (suc (suc zero))))) = unfold delay in refl
delay-suc (suc (suc (suc (suc (suc (suc n)))))) =
    omega (
      arith,
      delays_bounds n,
      delay_capped (suc (suc (suc (suc (suc (suc (suc n))))))) (omega arith),
    )

-- The delays that commands ask for.
abbrev pub waits : List Command → List ℕ
waits [] = []
waits (Command.retry_after d ∷ cs) = d ∷ waits cs
waits (_ ∷ cs) = waits cs

-- An attempt whose socket closes, before or after it opened, with the code that the transport reports.
pub record Attempt : Type 0 where
  pub opens : Bool
  pub code : Option ℕ

abbrev pub opening : Bool → List Input → List Input
opening true inputs = Input.opened ∷ inputs
opening false inputs = inputs

-- Failed attempts, each retried when its delay is over.
abbrev pub attempts : List Attempt → List Input
attempts [] = []
attempts (a ∷ more) = opening a.opens (Input.closed a.code ∷ Input.retry_due ∷ attempts more)

-- The reference delays of `k` attempts, from the one of number `n`.
abbrev pub delays_from : ℕ → ℕ → List ℕ
delays_from n zero = []
delays_from n (suc k) = delays n ∷ delays_from (suc n) k

-- No attempt is closed as signed out.
abbrev pub NotSignedOut : List Attempt → Type 0
NotSignedOut [] = Unit
NotSignedOut (a ∷ more) = (same a.code (some close_signed_out) ≡ false) × NotSignedOut more

-- How many are closed with the code of a protocol error.
abbrev pub protocol_errors : List Attempt → ℕ
protocol_errors [] = 0
protocol_errors (a ∷ more) =
    let rest = protocol_errors more in if same a.code (some close_protocol) then suc rest else rest

abbrev error_of : Option ℕ → ℕ
error_of code = if same code (some close_protocol) then 1 else 0

-- What is connecting again after a failed attempt.
abbrev again : Connection → Option ℕ → Connection
again c code = record c {
  failures = suc c.failures;
  refusals = c.refusals + error_of code;
  state = State.connecting;
  awaiting = none;
}

abbrev backed : Connection → Option ℕ → Connection
backed c code = record c {
  failures = suc c.failures;
  refusals = c.refusals + error_of code;
  state = State.backing_off (suc c.failures) (delays c.failures);
}

closed-backed :
    (c : Connection) (code : Option ℕ)
    → c.failures < u32_max
    → same code (some close_signed_out) ≡ false
    → c.refusals + error_of code < unreadable_limit
    → closed c code ≡ (backed c code, Command.retry_after (delays c.failures) ∷ [])
unfolding closed delays
closed-backed c code h n p =
    let f : saturating_suc c.failures ≡ suc c.failures = omega arith in
    elim (Bool-cases (same code (some close_protocol))) [
      | inl e ↦
          let q : c.refusals + 1 < unreadable_limit =
            subst (λ b. c.refusals + (if b then 1 else 0) < unreadable_limit) e p in
          let r : saturating_suc c.refusals ≡ c.refusals + 1 = omega arith in
          let l : leb unreadable_limit (saturating_suc c.refusals) ≡ false = ground arith in
          rw (closed, n, e, l, r, f, delay-suc c.failures) refl
      | inr e ↦
          let z : c.refusals + 0 ≡ c.refusals = omega arith in
          rw (closed, n, e, f, delay-suc c.failures, z) refl
    ]

module _ (c : Connection) (code : Option ℕ) (s : c.state ≡ State.connecting)
    (h : c.failures < u32_max) (n : same code (some close_signed_out) ≡ false)
    (p : c.refusals + error_of code < unreadable_limit) where
  refused-backed :
      handle c (Input.closed code)
      ≡ (backed c code, Command.retry_after (delays c.failures) ∷ Command.check_session ∷ [])
  unfolding handle
  refused-backed =
      subst
        (λ x.
          handle (record c { state = x }) (Input.closed code)
          ≡ (backed c code, Command.retry_after (delays c.failures) ∷ Command.check_session ∷ []))
        (sym s)
        (ap (λ r. (r.0, if is_signed_out r.0.state then r.1 else r.1 ++ Command.check_session ∷ []))
          (closed-backed (record c { state = State.connecting }) code h n p))

  dropped-backed :
      handle (record c { state = State.resuming }) (Input.closed code)
      ≡ (backed c code, Command.retry_after (delays c.failures) ∷ [])
  unfolding handle
  dropped-backed = closed-backed (record c { state = State.resuming }) code h n p

  opened :
      handle c Input.opened
      ≡ (record c { state = State.resuming }, Command.send (ClientFrame.resume c.last) ∷ [])
  unfolding handle
  opened = rw (s) refl

  retried : handle (backed c code) Input.retry_due ≡ (again c code, Command.connect ∷ [])
  unfolding handle
  retried = refl

  -- A failed attempt, whatever comes after it.
  attempt :
      (opens : Bool) (inputs : List Input)
      → (waits (run c (opening opens (Input.closed code ∷ Input.retry_due ∷ inputs))).1
          ≡ delays c.failures ∷ waits (run (again c code) inputs).1)
        × ((run c (opening opens (Input.closed code ∷ Input.retry_due ∷ inputs))).0
            ≡ (run (again c code) inputs).0)
  unfolding run
  attempt true inputs = (
    rw (run, opened, dropped-backed, retried) refl,
    rw (run, opened, dropped-backed, retried) refl,
  )
  attempt false inputs =
      (rw (run, refused-backed, retried) refl, rw (run, refused-backed, retried) refl)

-- A machine that is connecting, and whose next attempts all fail, before the socket opens or after,
-- is connecting again after them with as many more failures, and the delays that it asked for are
-- the doubling sequence, from the one that its failures so far stand at. The closes may have any
-- code but that of a signed-out session, if too few protocol errors are among them for the machine
-- to be outdated.
pub waits-attempts :
    (l : List Attempt) (c : Connection)
    → c.state ≡ State.connecting
    → c.failures + length l ≤ u32_max
    → NotSignedOut l
    → c.refusals + protocol_errors l < unreadable_limit
    → (waits (run c (attempts l)).1 ≡ delays_from c.failures (length l))
      × ((run c (attempts l)).0.state ≡ State.connecting)
      × ((run c (attempts l)).0.failures ≡ c.failures + length l)
waits-attempts [] c s h n p = unfold run in ground arith
waits-attempts (a ∷ l) c s h n p =
    let errors : error_of a.code + protocol_errors l ≡ protocol_errors (a ∷ l) = ground arith in
    let one =
      attempt c a.code s (omega arith) n.0 (omega (arith, p, errors)) a.opens (attempts l) in
    let rest =
      waits-attempts l (again c a.code) refl (omega arith) n.1 (omega (arith, p, errors)) in
    (
      one.0 ∙ ap (◌∷◌ (delays c.failures)) rest.0,
      ap (λ x. x.state) one.1 ∙ rest.1,
      ap (λ x. x.failures) one.1 ∙ rest.2 ∙ omega arith,
    )
