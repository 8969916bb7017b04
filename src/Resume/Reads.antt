-- ===== src/Resume/Reads.antt =====
-- The rows that the replay's queries find while the log is at work, and how the log grows.
use bokkie.Prelude.{
  ℕ, ◌≤◌, ◌≡◌, refl, sym, subst, ◌⊎◌, inl, inr, Option, none, some, List, [], ◌∷◌, ◌++◌, arith,
  length, length-append, All,
}
use bokkie.Protocol.Events.{Seq, EventEnvelope}
use bokkie.EventLog.Rows.{Rows}
use bokkie.EventLog.Log.{Batch, with_retention, begin, finish, latest}
use bokkie.EventLog.System.{System, Action, step, run, empty}
use bokkie.EventLog.Guarantees.{history}
use bokkie.EventSocket.Pages.{Covers}
use bokkie.EventSocket.Following.{rows-Covers}

-- The rows that the queries find, each after the actions that ran since the one before.
unfoldable pub reads_after : ℕ → List Action → List (List Action) → List Rows
reads_after retention before [] = []
reads_after retention before (actions ∷ rest) =
    let now = before ++ actions in (history retention now).rows ∷ reads_after retention now rest

pub batch_live : Option Batch → List EventEnvelope
batch_live none = []
batch_live (some b) = b.pending

-- A step leaves the events broadcast as they are, or adds an open batch's.
pub step_at_live :
    (r : ℕ) (s : System) (a : Action)
    → ((step r s a).log.live ≡ s.log.live)
      ⊎ ((step r s a).log.live ≡ s.log.live ++ batch_live s.batch)
unfolding step begin finish latest batch_live
step_at_live r s a = ground arith

pub step-live : (r : ℕ) (s : System) (a : Action) → length s.log.live ≤ length (step r s a).log.live
step-live r s a = elim (step_at_live r s a) [
  | inl same ↦ rw same (omega arith)
  | inr more ↦ rw (more, length-append) (omega arith)
]

run-live :
    (r : ℕ) (s : System) (actions : List Action)
    → length s.log.live ≤ length (run r s actions).log.live
unfolding run
run-live r s [] = omega arith
run-live r s (a ∷ actions) = omega (arith, step-live r s a, run-live r (step r s a) actions)

pub run-append :
    (r : ℕ) (s : System) (xs ys : List Action) → run r s (xs ++ ys) ≡ run r (run r s xs) ys
unfolding run
run-append r s [] ys = refl
run-append r s (x ∷ xs) ys = run-append r (step r s x) xs ys

pub history-live :
    (retention : ℕ) (before actions : List Action)
    → length (history retention before).live ≤ length (history retention (before ++ actions)).live
history-live retention before actions =
    subst (λ s. length (history retention before).live ≤ length s.log.live)
      (sym (run-append (with_retention retention) empty before actions))
      (run-live (with_retention retention) (run (with_retention retention) empty before) actions)

pub reads_after-Covers :
    (retention : ℕ) (n : Seq) (before : List Action) (between : List (List Action))
    → n ≤ length (history retention before).live
    → All (Covers n) (reads_after retention before between)
unfolding reads_after
reads_after-Covers retention n before [] h = tt
reads_after-Covers retention n before (actions ∷ rest) h =
    let grown : n ≤ length (history retention (before ++ actions)).live =
      omega (arith, h, history-live retention before actions) in
    (
      rows-Covers retention (before ++ actions) n grown,
      reads_after-Covers retention n (before ++ actions) rest grown,
    )

pub length-reads_after :
    (retention : ℕ) (before : List Action) (between : List (List Action))
    → length (reads_after retention before between) ≡ length between
unfolding reads_after
length-reads_after retention before [] = refl
length-reads_after retention before (actions ∷ rest) =
    omega (arith, length-reads_after retention (before ++ actions) rest)
