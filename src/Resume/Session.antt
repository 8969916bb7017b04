-- ===== src/Resume/Session.antt =====
-- A client that resumes, from the gateway's database to the machine that is live.
use bokkie.Prelude.{ℕ, ◌≡◌, subst, some, List, ◌++◌, arith, length, All}
use bokkie.Protocol.Events.{Seq, ServerFrame}
use bokkie.EventLog.Log.{latest}
use bokkie.EventLog.System.{Action}
use bokkie.EventLog.Guarantees.{history, latest-run}
use bokkie.EventSocket.Replay.{opening}
use bokkie.EventSocket.Delivery.{Live, Enough, opening-Live}
use bokkie.Connection.Machine.{State, Connection}
use bokkie.EventSocket.Delivery.{events_of}
use bokkie.EventSocket.Contents.{Sends, opening-Sends}
use bokkie.Resume.Reads.{reads_after, history-live, reads_after-Covers, length-reads_after}
use bokkie.Resume.Broadcast.{Occurs, overall, reads_after-Occurs}

-- Whatever happened to a user's log before the client resumes, and whatever batches, prunes and
-- restarts happen before the check for dropped events and between the replay's queries, with one
-- query for each event to replay: the gateway gets to the live frame, and its frames make a client
-- that resumes from its own position live at the number of the newest event that the log had
-- broadcast when the client resumed, with exactly the events sent applied, in their order; and each
-- of these is an event that the log has broadcast by then.
pub resume-Live :
    (retention : ℕ) (before meanwhile : List Action) (between : List (List Action)) (c : Connection)
    → c.state ≡ State.resuming
    → Enough c.last (latest (history retention before)).1 (length between)
    → let log = history retention before in
      let check = history retention (before ++ meanwhile) in
      let reads = reads_after retention (before ++ meanwhile) between in
      (frames : List ServerFrame) × (opening c.last (latest log).1 check.rows reads ≡ some frames)
      × Live c frames (length log.live)
      × All
          (λ e. Occurs e (history retention (overall (before ++ meanwhile) between)).live)
          (events_of frames)
resume-Live retention before meanwhile between c h enough =
    let n : Seq = (latest (history retention before)).1 in
    let newest : n ≡ length (history retention before).live = latest-run retention before in
    let check = history retention (before ++ meanwhile) in
    let covered =
      reads_after-Covers retention n (before ++ meanwhile) between
        (omega (arith, newest, history-live retention before meanwhile)) in
    let (frames, sent, live) =
      opening-Live c n check.rows (reads_after retention (before ++ meanwhile) between) h covered
        (rw (length-reads_after retention (before ++ meanwhile) between) enough) in
    let own = reads_after-Occurs retention (before ++ meanwhile) between in
    (
      frames,
      sent,
      subst (Live c frames) newest live,
      subst (Sends _) sent (opening-Sends _ c.last n check.rows _ own),
    )
