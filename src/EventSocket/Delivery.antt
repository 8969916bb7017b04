-- ===== src/EventSocket/Delivery.antt =====
-- The gateway's frames as the client's machine takes them: a resumed connection becomes live.
use bokkie.Prelude.{
  ℕ, suc, ◌+◌, ◌≤◌, ◌<◌, ◌≡◌, refl, ap, ◌∙◌, dec_lt, ◌⊎◌, inl, inr, Option, none, some, List, [],
  ◌∷◌, ◌++◌, arith, length, map, All,
}
use bokkie.Protocol.Events.{Seq, EventEnvelope, ServerFrame}
use bokkie.EventLog.Rows.{Rows}
use bokkie.EventSocket.Replay.{replay, opening}
use bokkie.EventSocket.Pages.{Covers, Bridges, Ends, replay-Bridges}
use bokkie.Connection.Machine.{State, Input, Command, Connection}
use bokkie.Connection.Handle.{handle, run}

-- The events among the frames, and those that commands apply.
abbrev pub events_of : List ServerFrame → List EventEnvelope
events_of [] = []
events_of (ServerFrame.event e ∷ fs) = e ∷ events_of fs
events_of (_ ∷ fs) = events_of fs

abbrev pub applied : List Command → List EventEnvelope
applied [] = []
applied (Command.apply e ∷ cs) = e ∷ applied cs
applied (_ ∷ cs) = applied cs

applied-append : (xs ys : List Command) → applied (xs ++ ys) ≡ applied xs ++ applied ys
applied-append [] ys = refl
applied-append (Command.apply e ∷ xs) ys = ap (◌∷◌ e) (applied-append xs ys)
applied-append (_ ∷ xs) ys = applied-append xs ys

-- A machine that takes frames, and is not live yet.
record Receiving (c : Connection) (n : Seq) : Type 0 where
  state : (c.state ≡ State.resuming) ⊎ (c.state ≡ State.replaying)
  last : c.last ≡ some n

event-Receiving :
    (c : Connection) (n : Seq) (e : EventEnvelope)
    → Receiving c n
    → e.seq ≡ suc n
    → Receiving (handle c (Input.frame (ServerFrame.event e))).0 e.seq
      × ((handle c (Input.frame (ServerFrame.event e))).1 ≡ Command.apply e ∷ [])
unfolding handle
event-Receiving c n e r h = ground arith

reset-Receiving :
    (c : Connection) (n latest : Seq)
    → Receiving c n
    → Receiving (handle c (Input.frame (ServerFrame.reset latest))).0 latest
      × ((handle c (Input.frame (ServerFrame.reset latest))).1 ≡ Command.reload ∷ [])
unfolding handle
reset-Receiving c n latest r = ground arith

-- What the frames up to the live one do, and the live one itself.
pub record Live (c : Connection) (frames : List ServerFrame) (latest : Seq) : Type 0 where
  pub live : (run c (map Input.frame frames)).0.state ≡ State.live
  pub at : (run c (map Input.frame frames)).0.last ≡ some latest
  pub all : applied (run c (map Input.frame frames)).1 ≡ events_of frames

live-Live :
    (c : Connection) (latest : Seq)
    → Receiving c latest
    → Live c (ServerFrame.live latest ∷ []) latest
unfolding run handle
live-Live c latest r = ground arith

-- A machine that has passed on nothing yet takes its position from the live frame.
fresh-Live :
    (c : Connection) (latest : Seq)
    → c.state ≡ State.resuming
    → c.last ≡ none
    → Live c (ServerFrame.live latest ∷ []) latest
unfolding run handle
fresh-Live c latest r l = ground arith

-- A frame more in front.
step-Live :
    (c : Connection) (f : ServerFrame) (fs : List ServerFrame) (latest : Seq)
    → applied (handle c (Input.frame f)).1 ≡ events_of (f ∷ [])
    → Live (handle c (Input.frame f)).0 fs latest
    → Live c (f ∷ fs) latest
unfolding run
step-Live c f fs latest h l = record {
  live = l.live;
  at = l.at;
  all =
      applied-append (handle c (Input.frame f)).1
        (run (handle c (Input.frame f)).0 (map Input.frame fs)).1
      ∙ rw (h, l.all) (events_of-cons f fs);
}
  where
    events_of-cons :
        (f : ServerFrame) (fs : List ServerFrame)
        → events_of (f ∷ []) ++ events_of fs ≡ events_of (f ∷ fs)
    events_of-cons (ServerFrame.event e) fs = refl
    events_of-cons (ServerFrame.reset a) fs = refl
    events_of-cons (ServerFrame.live a) fs = refl
    events_of-cons ServerFrame.pong fs = refl

Bridges-Live :
    (c : Connection) (n latest : Seq) (frames : List ServerFrame)
    → Receiving c n
    → Bridges latest n frames
    → Live c (frames ++ ServerFrame.live latest ∷ []) latest
Bridges-Live c n latest [] r b =
    live-Live c latest (record { state = r.state; last = r.last ∙ ap some b })
Bridges-Live c n latest (ServerFrame.event e ∷ fs) r b =
    let (r', s) = event-Receiving c n e r b.0 in
    step-Live c (ServerFrame.event e) (fs ++ ServerFrame.live latest ∷ []) latest (ap applied s)
      (Bridges-Live (handle c (Input.frame (ServerFrame.event e))).0 e.seq latest fs r' b.1)
Bridges-Live c n latest (ServerFrame.reset a ∷ fs) r b =
    let (r', s) = reset-Receiving c n a r in
    step-Live c (ServerFrame.reset a) (fs ++ ServerFrame.live latest ∷ []) latest (ap applied s)
      (rw b.1 (live-Live _ latest (record { state = r'.state; last = r'.last ∙ ap some b.0 })))
Bridges-Live c n latest (ServerFrame.live a ∷ fs) r b = absurd b
Bridges-Live c n latest (ServerFrame.pong ∷ fs) r b = absurd b

-- Enough queries for a client that resumes after a number.
abbrev pub Enough : Option Seq → Seq → ℕ → Type 0
Enough none latest k = Unit
Enough (some after) latest k = latest ≤ after + k

opening-replayed :
    (after latest : Seq) (at_check : Rows) (reads : List Rows) (frames : List ServerFrame)
    → replay reads after latest ≡ some frames
    → (opening (some after) latest at_check reads
        ≡ some (ServerFrame.reset latest ∷ ServerFrame.live latest ∷ []))
      ⊎ ((opening (some after) latest at_check reads
            ≡ some (frames ++ ServerFrame.live latest ∷ []))
          × (after ≤ latest))
unfolding opening
opening-replayed after latest at_check reads frames e = ground arith

opening-ahead :
    (after latest : Seq) (at_check : Rows) (reads : List Rows)
    → latest < after
    → opening (some after) latest at_check reads
      ≡ some (ServerFrame.reset latest ∷ ServerFrame.live latest ∷ [])
unfolding opening
opening-ahead after latest at_check reads h = ground arith

-- Whatever prunes and appends happen between the gateway's queries, as long as the table each time
-- holds consecutive rows up to at least the number that was the latest, and with one query for each
-- event to replay: the gateway gets to the live frame, and what it sends to a client that resumes
-- from its own position makes that client live at the latest number, with exactly the events sent
-- applied, in their order.
pub opening-Live :
    (c : Connection) (latest : Seq) (at_check : Rows) (reads : List Rows)
    → c.state ≡ State.resuming
    → All (Covers latest) reads
    → Enough c.last latest (length reads)
    → (frames : List ServerFrame) × (opening c.last latest at_check reads ≡ some frames)
      × Live c frames latest
opening-Live c latest at_check reads h cs f = go c.last refl f
  where
    receiving : (n : Seq) → c.last ≡ some n → Receiving c n
    receiving n e = record { state = inl h; last = e }

    reset_live :
        (n : Seq)
        → c.last ≡ some n
        → Live c (ServerFrame.reset latest ∷ ServerFrame.live latest ∷ []) latest
    reset_live n e =
        Bridges-Live c n latest (ServerFrame.reset latest ∷ []) (receiving n e) (refl, refl)

    after_replay :
        (n : Seq)
        → c.last ≡ some n
        → Ends reads n latest
        → (frames : List ServerFrame) × (opening (some n) latest at_check reads ≡ some frames)
          × Live c frames latest
    after_replay n e (frames, replayed, b) =
        elim (opening-replayed n latest at_check reads frames replayed) [
          | inl reset ↦ (_, reset, reset_live n e)
          | inr (sent, _) ↦ (_, sent, Bridges-Live c n latest frames (receiving n e) b)
        ]

    go :
        (after : Option Seq)
        → c.last ≡ after
        → Enough after latest (length reads)
        → (frames : List ServerFrame) × (opening after latest at_check reads ≡ some frames)
          × Live c frames latest
    go none e f = (ServerFrame.live latest ∷ [], unfold opening in refl, fresh-Live c latest h e)
    go (some n) e f = elim (dec_lt latest n) [
      | yes ahead ↦ (_, opening-ahead n latest at_check reads ahead, reset_live n e)
      | no behind ↦ after_replay n e (replay-Bridges reads n latest cs (omega arith) f)
    ]
