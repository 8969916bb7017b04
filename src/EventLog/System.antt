-- ===== src/EventLog/System.antt =====
-- events.rs: what can happen to one user's log, one action at a time. A batch holds the log's lock,
-- so no other batch begins and the last number is not read while one is open; it also holds
-- the database's write lock, so no prune runs meanwhile. The prunes that finished batches asked for
-- run later, in any order, or never.
use bokkie.Prelude.{ℕ, zero, suc, Bool, Option, none, some, List, [], ◌∷◌, if◌then◌else◌}
use bokkie.Protocol.Routines.{Timestamp}
use bokkie.Protocol.Events.{Seq, Event}
use bokkie.EventLog.Rows.{delete_up_to}
use bokkie.EventLog.Log.{UserLog, Batch, begin, emit, finish, latest}

pub record System : Type 0 where
  pub log : UserLog
  pub batch : Option Batch
  pub prunes : List Seq

pub data Action : Type 0 where
  begins : (ok : Bool) → Action
  emits : (now : Timestamp) → Event → (ok : Bool) → Action
  -- `Batch::commit`.
  commits : (ok : Bool) → Action
  -- The batch is dropped, which rolls it back.
  drops : Action
  -- The prune of this number among those asked for.
  prunes : ℕ → (ok : Bool) → Action
  reads_latest : Action
  -- The gateway ends and starts again.
  restarts : Action

abbrev pub with_prune : Option Seq → List Seq → List Seq
with_prune none us = us
with_prune (some u) us = u ∷ us

abbrev pub pick : ℕ → List Seq → Option Seq
pick i [] = none
pick zero (u ∷ us) = some u
pick (suc i) (u ∷ us) = pick i us

abbrev pub unpick : ℕ → List Seq → List Seq
unpick i [] = []
unpick zero (u ∷ us) = us
unpick (suc i) (u ∷ us) = u ∷ unpick i us

begin_on : System → Bool → System
begin_on s ok = let (log, batch) = begin s.log ok in record s { log = log; batch = batch }

commit_on : ℕ → System → Batch → Bool → System
commit_on retention s b ok =
    let (log, sent, up_to) = finish retention s.log b ok in
    record s { log = log; batch = none; prunes = with_prune up_to s.prunes }

prune_on : System → ℕ → Bool → System
prune_on s i ok = elim (pick i s.prunes) [
  | none ↦ s
  | some up_to ↦
      let us = unpick i s.prunes in
      if ok
      then record s { log = record s.log { rows = delete_up_to up_to s.log.rows }; prunes = us }
      else record s { prunes = us }
]

restart : System → System
restart s = record { log = record s.log { last = none }; batch = none; prunes = [] }

dispatch : ℕ → Option Batch → Action → System → System
unfolding begin_on commit_on prune_on restart begin emit finish latest
dispatch r none (Action.begins ok) s = begin_on s ok
dispatch r (some b) (Action.emits now event ok) s = record s {
  batch = some (emit b now event ok).0;
}
dispatch r (some b) (Action.commits ok) s = commit_on r s b ok
dispatch r (some b) Action.drops s = record s { batch = none }
dispatch r none (Action.prunes i ok) s = prune_on s i ok
dispatch r none Action.reads_latest s = record s { log = (latest s.log).0 }
dispatch r _ Action.restarts s = restart s
dispatch r _ _ s = s

unfoldable pub step : ℕ → System → Action → System
unfolding dispatch
step retention s action = dispatch retention s.batch action s

unfoldable pub run : ℕ → System → List Action → System
run retention s [] = s
run retention s (a ∷ actions) = run retention (step retention s a) actions

unfoldable pub empty : System
empty = record { log = record { rows = []; last = none; live = [] }; batch = none; prunes = [] }
