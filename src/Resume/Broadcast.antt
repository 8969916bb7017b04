-- ===== src/Resume/Broadcast.antt =====
-- The rows that the queries find are events that the log has broadcast.
use bokkie.Prelude.{
  drop, zero, suc, ℕ, ◌≡◌, refl, sym, subst, ◌⊎◌, inl, inr, List, [], ◌∷◌, ◌++◌, All,
}
use bokkie.Protocol.Events.{EventEnvelope}
use bokkie.EventLog.Log.{with_retention}
use bokkie.EventLog.System.{System, Action, step, run, empty}
use bokkie.EventLog.Guarantees.{history, run-empty-Inv}
use bokkie.Resume.Reads.{batch_live, step_at_live, run-append, reads_after}

-- An event is one of the list's.
abbrev pub Occurs : EventEnvelope → List EventEnvelope → Type 0
Occurs e [] = ⊥
Occurs e (x ∷ xs) = (e ≡ x) ⊎ Occurs e xs

Occurs-append : (e : EventEnvelope) (xs ys : List EventEnvelope) → Occurs e xs → Occurs e (xs ++ ys)
Occurs-append e [] ys h = absurd h
Occurs-append e (x ∷ xs) ys (inl h) = inl h
Occurs-append e (x ∷ xs) ys (inr h) = inr (Occurs-append e xs ys h)

Occurs-drop :
    (e : EventEnvelope) (n : ℕ) (xs : List EventEnvelope) → Occurs e (drop n xs) → Occurs e xs
Occurs-drop e zero xs h = h
Occurs-drop e (suc n) [] h = h
Occurs-drop e (suc n) (x ∷ xs) h = inr (Occurs-drop e n xs h)

All_of :
    (P : EventEnvelope → Type 0) (xs : List EventEnvelope)
    → ((e : EventEnvelope) → Occurs e xs → P e)
    → All P xs
All_of P [] h = tt
All_of P (x ∷ xs) h = (h x (inl refl), All_of P xs (λ e o. h e (inr o)))

-- Everything that ran up to the last query.
unfoldable pub overall : List Action → List (List Action) → List Action
overall before [] = before
overall before (actions ∷ rest) = overall (before ++ actions) rest

step-Occurs :
    (e : EventEnvelope) (r : ℕ) (s : System) (a : Action)
    → Occurs e s.log.live
    → Occurs e (step r s a).log.live
step-Occurs e r s a h = elim (step_at_live r s a) [
  | inl same ↦ rw same h
  | inr more ↦ rw more (Occurs-append e s.log.live (batch_live s.batch) h)
]

run-Occurs :
    (e : EventEnvelope) (r : ℕ) (s : System) (actions : List Action)
    → Occurs e s.log.live
    → Occurs e (run r s actions).log.live
unfolding run
run-Occurs e r s [] h = h
run-Occurs e r s (a ∷ actions) h = run-Occurs e r (step r s a) actions (step-Occurs e r s a h)

history-Occurs :
    (e : EventEnvelope) (retention : ℕ) (before actions : List Action)
    → Occurs e (history retention before).live
    → Occurs e (history retention (before ++ actions)).live
history-Occurs e retention before actions h =
    subst (λ s. Occurs e s.log.live)
      (sym (run-append (with_retention retention) empty before actions))
      (run-Occurs e (with_retention retention) (run (with_retention retention) empty before) actions
        h)

overall-Occurs :
    (e : EventEnvelope) (retention : ℕ) (before : List Action) (between : List (List Action))
    → Occurs e (history retention before).live
    → Occurs e (history retention (overall before between)).live
unfolding overall
overall-Occurs e retention before [] h = h
overall-Occurs e retention before (actions ∷ rest) h =
    overall-Occurs e retention (before ++ actions) rest
      (history-Occurs e retention before actions h)

rows-Occurs :
    (e : EventEnvelope) (retention : ℕ) (actions : List Action)
    → Occurs e (history retention actions).rows
    → Occurs e (history retention actions).live
rows-Occurs e retention actions h =
    let v = (run-empty-Inv retention actions).stored in
    Occurs-drop e v.gone (history retention actions).live (subst (Occurs e) v.kept h)

pub reads_after-Occurs :
    (retention : ℕ) (before : List Action) (between : List (List Action))
    → All
        (All (λ e. Occurs e (history retention (overall before between)).live))
        (reads_after retention before between)
unfolding reads_after overall
reads_after-Occurs retention before [] = tt
reads_after-Occurs retention before (actions ∷ rest) = (
  All_of _ (history retention (before ++ actions)).rows (λ e o.
      overall-Occurs e retention (before ++ actions) rest
        (rows-Occurs e retention (before ++ actions) o)),
  reads_after-Occurs retention (before ++ actions) rest,
)
