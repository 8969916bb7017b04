-- ===== src/Allowances/Growth.antt =====
-- The tokens recorded of a thread, crates/bokkie-gateway/src/usage.rs.
use bokkie.Prelude.{
  ℕ, ◌+◌, ◌-◌, ◌≤◌, ◌≡◌, inl, inr, Bool-cases, Option, some, List, [], ◌∷◌, ◌++◌, arith, ltb,
}
use bokkie.Protocol.Routines.{Text, Timestamp, BotId}
use bokkie.Protocol.Api.{UserId}
use bokkie.Allowances.Meter.{
  Meter, TokenRow, ThreadRow, reported_on, set_reported, clamped, record_turn_tokens,
}

-- All the tokens of a table.
unfoldable pub total_of : List TokenRow → ℕ
total_of [] = 0
total_of (r ∷ rs) = r.tokens + total_of rs

total_of-last :
    (rs : List TokenRow) (r : TokenRow) → total_of (rs ++ r ∷ []) ≡ total_of rs + r.tokens
unfolding total_of
total_of-last [] r = omega arith
total_of-last (s ∷ rs) r = omega (arith, total_of-last rs r)

-- A report becomes the thread's baseline.
reported_on-set :
    (user : UserId) (thread : Text) (bot : BotId) (n total : ℕ) (rs : List ThreadRow)
    → reported_on user thread bot rs ≡ some n
    → reported_on user thread bot (set_reported user thread total rs) ≡ some total
unfolding reported_on set_reported
reported_on-set user thread bot n total [] h = absurd (ground arith)
reported_on-set user thread bot n total (r ∷ rs) h =
    ground (arith, reported_on-set user thread bot n total rs)

-- One report: what is recorded grows by what the thread's total grew, and the total is the
-- thread's baseline.
report :
    (now : Timestamp) (user : UserId) (bot : BotId) (thread : Text) (turn : Option Text)
    (n total : ℕ) (t : Meter)
    → reported_on user thread bot t.threads ≡ some n
    → (reported_on user thread bot (record_turn_tokens now user bot thread turn total t).0.threads
        ≡ some (clamped total))
      × (total_of (record_turn_tokens now user bot thread turn total t).0.tokens
          ≡ total_of t.tokens + (clamped total - n))
unfolding record_turn_tokens
report now user bot thread turn n total t h =
    let g = clamped total - n in
    let row : TokenRow = record { user = user; bot = bot; at = now; tokens = g; turn_id = turn } in
    let set = reported_on-set user thread bot n (clamped total) t.threads h in
    elim (Bool-cases (ltb 0 g)) [
      | inl q ↦ rw (record_turn_tokens, h, q) (set, total_of-last t.tokens row)
      | inr q ↦ rw (record_turn_tokens, h, q) (set, ground arith)
    ]

-- Reports of one thread in a row, each at a time and from a turn.
pub record Report : Type 0 where
  pub at : Timestamp
  pub turn : Option Text
  pub total : ℕ

unfoldable pub report_all : UserId → BotId → Text → List Report → Meter → Meter
report_all user bot thread [] t = t
report_all user bot thread (r ∷ rs) t =
    report_all user bot thread rs (record_turn_tokens r.at user bot thread r.turn r.total t).0

-- The sum of the rises of the totals from a baseline on.
abbrev pub rises : ℕ → List Report → ℕ
rises n [] = 0
rises n (r ∷ rs) = (clamped r.total - n) + rises (clamped r.total) rs

abbrev pub last_total : ℕ → List Report → ℕ
last_total n [] = n
last_total n (r ∷ rs) = last_total (clamped r.total) rs

-- The totals never fall.
abbrev pub Growing : ℕ → List Report → Type 0
Growing n [] = Unit
Growing n (r ∷ rs) = (n ≤ clamped r.total) × Growing (clamped r.total) rs

report_all-rises :
    (user : UserId) (bot : BotId) (thread : Text) (rs : List Report) (n : ℕ) (t : Meter)
    → reported_on user thread bot t.threads ≡ some n
    → total_of (report_all user bot thread rs t).tokens ≡ total_of t.tokens + rises n rs
unfolding report_all
report_all-rises user bot thread [] n t h = omega arith
report_all-rises user bot thread (r ∷ rs) n t h =
    let one = report r.at user bot thread r.turn n r.total t h in
    omega (
      arith,
      one.1,
      report_all-rises user bot thread rs (clamped r.total)
          (record_turn_tokens r.at user bot thread r.turn r.total t).0 one.0,
    )

rises-Growing : (rs : List Report) (n : ℕ) → Growing n rs → n + rises n rs ≡ last_total n rs
rises-Growing [] n g = omega arith
rises-Growing (r ∷ rs) n g = omega (arith, g.0, rises-Growing rs (clamped r.total) g.1)

-- Of a thread that the Bot has, with a baseline, the reports of its totals one after another, with
-- repeats, add to the tokens recorded the sum of the totals' rises, each total cut to an `i64`; so
-- if the totals never fall, they add what the last total is above the baseline, however often and in
-- how many steps it was reported.
pub report_all-total :
    (user : UserId) (bot : BotId) (thread : Text) (rs : List Report) (n : ℕ) (t : Meter)
    → reported_on user thread bot t.threads ≡ some n
    → (total_of (report_all user bot thread rs t).tokens ≡ total_of t.tokens + rises n rs)
      × (Growing n rs
          → n + total_of (report_all user bot thread rs t).tokens
            ≡ last_total n rs + total_of t.tokens)
report_all-total user bot thread rs n t h =
    let e = report_all-rises user bot thread rs n t h in
    (e, λ g. omega (arith, e, rises-Growing rs n g))
