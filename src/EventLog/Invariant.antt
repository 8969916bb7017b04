-- ===== src/EventLog/Invariant.antt =====
-- What holds of one user's log whatever happens to it: numbering, storage and broadcast agree.
use bokkie.Prelude.{
  length-drop, ℕ, ◌+◌, ◌≤◌, ◌≡◌, refl, ◌⊎◌, Option, none, some, [], ◌∷◌, ◌++◌, arith, length, drop,
  All,
}
use bokkie.Protocol.Events.{Seq}
use bokkie.EventLog.Rows.{Rows, stored_last}
use bokkie.EventLog.Log.{UserLog, Batch}
use bokkie.EventLog.System.{System}
use bokkie.EventLog.Numbering.{
  Consecutive, Consecutive-at, Consecutive-drop, stored_last-Consecutive,
}

-- The rows are the broadcast events but the oldest, of which at most those beyond the retention
-- are gone.
pub record Stored (retention : ℕ) (log : UserLog) : Type 0 where
  pub gone : ℕ
  pub numbered : Consecutive 0 log.live
  pub kept : log.rows ≡ drop gone log.live
  pub retained : (gone ≡ 0) ⊎ (gone + retention ≤ length log.live)
  pub cached : (log.last ≡ none) ⊎ (log.last ≡ some (length log.live))

-- An open batch continues the log, which waits for it with its cache empty.
pub record Open (log : UserLog) (b : Batch) : Type 0 where
  pub waits : log.last ≡ none
  pub starts : b.first ≡ length log.live
  pub continues : Consecutive (length log.live) b.pending
  pub counts : b.previous ≡ length log.live + length b.pending
  pub sees : b.rows ≡ log.rows ++ b.pending

abbrev pub OpenBatch : UserLog → Option Batch → Type 0
OpenBatch log none = Unit
OpenBatch log (some b) = Open log b

abbrev pub Prunable : ℕ → ℕ → Seq → Type 0
Prunable retention n u = u + retention ≤ n

pub record Inv (retention : ℕ) (s : System) : Type 0 where
  pub stored : Stored retention s.log
  pub open_batch : OpenBatch s.log s.batch
  pub prunable : All (Prunable retention (length s.log.live)) s.prunes

stored_last-numbered :
    (n : Seq) (rows : Rows)
    → Consecutive n rows
    → (length rows ≡ 0 → n ≡ 0)
    → stored_last rows ≡ n + length rows
stored_last-numbered n [] c h = unfold stored_last in omega (arith, h refl)
stored_last-numbered n (r ∷ rows) c h = stored_last-Consecutive n r rows c

pub gone-le : (r : ℕ) (log : UserLog) (s : Stored r log) → s.gone ≤ length log.live
gone-le r log s = omega (arith, s.retained)

pub length-rows :
    (r : ℕ) (log : UserLog) (s : Stored r log) → length log.rows + s.gone ≡ length log.live
length-rows r log s = rw s.kept (omega (arith, length-drop s.gone log.live, gone-le r log s))

pub rows-Consecutive : (r : ℕ) (log : UserLog) (s : Stored r log) → Consecutive s.gone log.rows
rows-Consecutive r log s = rw s.kept (
    Consecutive-at (drop s.gone log.live) (omega arith)
      (Consecutive-drop s.gone 0 log.live (gone-le r log s) s.numbered))

-- The number that a batch starts from is that of the newest event, whether cached or read.
pub stored_last-Stored :
    (r : ℕ) (log : UserLog) → 1 ≤ r → Stored r log → stored_last log.rows ≡ length log.live
stored_last-Stored r log h s = omega (
  arith,
  length-rows r log s,
  stored_last-numbered s.gone log.rows (rows-Consecutive r log s)
      (λ (z : length log.rows ≡ 0). omega (arith, length-rows r log s, s.retained)),
)
