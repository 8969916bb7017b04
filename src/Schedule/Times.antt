-- ===== src/Schedule/Times.antt =====
-- The times of day that `times` of crates/bokkie-gateway/src/routines/schedule.rs gives.
use native.Mathlib.Nat.{mod-add-div'}
use bokkie.Prelude.{
  sym, ℕ, zero, suc, ◌+◌, ◌*◌, ◌/◌, ◌%◌, ◌≤◌, ◌<◌, ◌≡◌, ◌⊎◌, inl, inr, ◌↔◌, Bool-cases, arith, ltb,
  Any, max,
}
use bokkie.Protocol.Routines.{TimeOfDay}
use bokkie.Protocol.Routines.Schedule.{hours}
use bokkie.Schedule.{times, spaced, minutes}

-- With steps of an hour or more, the fuel outlasts the day.
spaced-Any :
    (fuel step m x : ℕ)
    → 24 * 60 ≤ m + fuel * 60
    → 60 ≤ step
    → Any (λ y. y ≡ x) (spaced fuel step m) ↔ ((x < 24 * 60) × (k : ℕ) × (x ≡ m + k * step))
unfolding spaced
spaced-Any zero step m x h i = (λ a. absurd a, λ b. absurd (omega (arith, b.0, b.2)))
spaced-Any (suc fuel) step m x h i = elim (Bool-cases (ltb m (24 * 60))) [
  | inl q ↦
      let r = spaced-Any fuel step (m + step) x (omega arith) i in
      rw (q, spaced)
        (
          λ a. elim a [
            | inl e ↦ (ground arith, 0, omega arith)
            | inr a ↦ let b = r.0 a in (b.0, suc b.1, omega (arith, b.2))
          ],
          back r,
        )
  | inr q ↦
      rw (q, spaced)
        (λ a. absurd a, λ b. absurd (let f : 24 * 60 ≤ m = ground arith in omega (arith, b.0, b.2)))
]
  where
    back :
        Any (λ y. y ≡ x) (spaced fuel step (m + step))
          ↔ ((x < 24 * 60) × (k : ℕ) × (x ≡ m + step + k * step))
        → (x < 24 * 60) × (k : ℕ) × (x ≡ m + k * step)
        → (m ≡ x) ⊎ Any (λ y. y ≡ x) (spaced fuel step (m + step))
    back r (l, zero, e) = inl (omega arith)
    back r (l, suc k, e) = inr (r.1 (l, k, omega arith))

abbrev pub step_of : ℕ → ℕ
step_of every = every * 60

-- Of a schedule that repeats every so many hours, one at least, the times are the minutes of the
-- day that lie a number of steps after the first, which is what is left of the schedule's own time
-- after whole steps. The own time, which is a time of day, is among them.
pub times-hours :
    (every : ℕ) (t : TimeOfDay)
    → 1 ≤ every
    → minutes t < 24 * 60
    → ((x : ℕ)
        → Any (λ y. y ≡ x) (times (hours every t))
          ↔ ((x < 24 * 60) × (k : ℕ) × (x ≡ minutes t % step_of every + k * step_of every)))
      × Any (λ y. y ≡ minutes t) (times (hours every t))
unfolding times
times-hours every t h v = (
  all,
  (all (minutes t)).1 (v, minutes t / (every * 60), sym (mod-add-div' (minutes t) (every * 60))),
)
  where
    all :
        (x : ℕ)
        → Any (λ y. y ≡ x) (times (hours every t))
          ↔ ((x < 24 * 60) × (k : ℕ) × (x ≡ minutes t % step_of every + k * step_of every))
    all x =
        let e : max every 1 ≡ every = omega arith in
        rw (e, times)
          (spaced-Any 24 (every * 60) (minutes t % (every * 60)) x (omega arith) (omega arith))
