-- ===== src/Routines/Failures.antt =====
-- Three failed runs in a row pause a routine: `count_outcome` of
-- crates/bokkie-gateway/src/routines/store.rs.
use bokkie.Prelude.{
  ℕ, zero, suc, ◌+◌, ◌<◌, ◌≡◌, ◌↔◌, Bool, true, false, none, some, List, [], ◌∷◌, arith, ltb,
}
use bokkie.Routines.Rows.{RoutineRow}
use bokkie.Routines.RoutineChanges.{counted}

-- What is stored of a routine after an outcome: the old row if nothing changes.
unfoldable pub after_outcome : Bool → RoutineRow → RoutineRow
after_outcome failed q = elim (counted failed q) [ none ↦ q | some (p, _) ↦ p ]

-- After outcomes one after another, of which `true` is a failure.
unfoldable pub after_outcomes : List Bool → RoutineRow → RoutineRow
after_outcomes [] q = q
after_outcomes (failed ∷ more) q = after_outcomes more (after_outcome failed q)

-- Three failures in a row are somewhere among the outcomes.
abbrev pub Streak : List Bool → Type 0
Streak [] = ⊥
Streak (true ∷ true ∷ true ∷ more) = Unit
Streak (_ ∷ more) = Streak more

-- A failure counts one more and pauses at the third; a success counts none.
failure :
    (n : ℕ) (q : RoutineRow)
    → q.failures ≡ n
    → n < 3
    → q.paused ≡ false
    → ((after_outcome true q).failures ≡ n + 1) × ((after_outcome true q).paused ≡ ltb 1 n)
unfolding after_outcome counted
failure n q e l p = ground arith

success :
    (q : RoutineRow)
    → q.paused ≡ false
    → ((after_outcome false q).failures ≡ 0) × ((after_outcome false q).paused ≡ false)
unfolding after_outcome counted
success q p = ground arith

still : (b : Bool) (q : RoutineRow) → q.paused ≡ true → (after_outcome b q).paused ≡ true
unfolding after_outcome counted
still true q p = ground arith
still false q p = ground arith

stays_paused :
    (l : List Bool) (q : RoutineRow) → q.paused ≡ true → (after_outcomes l q).paused ≡ true
unfolding after_outcomes
stays_paused [] q p = p
stays_paused (b ∷ l) q p = stays_paused l (after_outcome b q) (still b q p)

-- With so many failures in a row before.
abbrev failures_before : ℕ → List Bool → List Bool
failures_before zero l = l
failures_before (suc n) l = true ∷ failures_before n l

pauses :
    (l : List Bool) (q : RoutineRow)
    → q.paused ≡ false
    → (n : ℕ) → n < 3
    → q.failures ≡ n
    → ((after_outcomes l q).paused ≡ true) ↔ Streak (failures_before n l)
unfolding after_outcomes
pauses l q p (suc (suc (suc n))) h e = absurd (omega arith)
pauses [] q p zero h e = (λ i. cc (p, i), λ s. absurd s)
pauses [] q p (suc zero) h e = (λ i. cc (p, i), λ s. absurd s)
pauses [] q p (suc (suc zero)) h e = (λ i. cc (p, i), λ s. absurd s)
pauses (true ∷ l) q p zero h e =
    let f = failure 0 q e h p in pauses l (after_outcome true q) f.1 1 (omega arith) f.0
pauses (true ∷ l) q p (suc zero) h e =
    let f = failure 1 q e h p in pauses l (after_outcome true q) f.1 2 (omega arith) f.0
pauses (true ∷ l) q p (suc (suc zero)) h e =
    let f = failure 2 q e h p in (λ i. tt, λ s. stays_paused l (after_outcome true q) f.1)
pauses (false ∷ l) q p zero h e =
    let f = success q p in pauses l (after_outcome false q) f.1 0 (omega arith) f.0
pauses (false ∷ l) q p (suc zero) h e =
    let f = success q p in pauses l (after_outcome false q) f.1 0 (omega arith) f.0
pauses (false ∷ l) q p (suc (suc zero)) h e =
    let f = success q p in pauses l (after_outcome false q) f.1 0 (omega arith) f.0

-- A routine that is not paused and has no failures counted is paused by the outcomes of its runs,
-- in their order, exactly if three in a row of them are failures.
pub after_outcomes-Streak :
    (l : List Bool) (q : RoutineRow)
    → q.paused ≡ false
    → q.failures ≡ 0
    → ((after_outcomes l q).paused ≡ true) ↔ Streak l
after_outcomes-Streak l q p e = pauses l q p 0 (omega arith) e
