-- ===== src/Allowances/History.antt =====
-- The turns that a user took, whatever the meter still keeps of them, under
-- crates/bokkie-gateway/src/usage.rs.
use bokkie.Prelude.{
  ℕ, suc, ◌^◌, ◌≤◌, ◌<◌, ◌≡◌, refl, sym, ◌∙◌, inl, inr, Bool, true, false, not, ◌&&◌, Bool-cases,
  some, Option-cases, List, [], ◌∷◌, arith, ltb, ◌==◌, if◌then◌else◌, ap,
}
use bokkie.Maps.{Map, get, insert, retain}
use bokkie.Protocol.Routines.{Timestamp, BotId}
use bokkie.Protocol.Api.{UserId}
use bokkie.Routines.Lookups.{fresh}
use bokkie.Allowances.Meter.{
  Meter, TurnRow, Reserved, turn_window_ms, within, count_turns, allowance, limits_of, count_turn,
  reserve_turn, release_turn, prune,
}
use bokkie.Allowances.Windows.{
  Action, time, act, run, InTime, last_time, Within, record-turns, run-turns,
}

-- A reservation that was counted is a turn taken.
unfoldable pub noted : Reserved → Timestamp → UserId → BotId → Map TurnRow → Map TurnRow
noted (Reserved.counted id) now user bot h = (id, record { user = user; bot = bot; at = now }) ∷ h
noted Reserved.exhausted now user bot h = h
noted Reserved.not_found now user bot h = h

-- What an action adds to the turns taken, or takes back. A prune does neither.
unfoldable pub note : Action → Meter → Map TurnRow → Map TurnRow
note (Action.reserves now user bot) t h = noted (reserve_turn now user bot t).1 now user bot h
note (Action.releases now user turn) t h = retain (λ id r. not ((id == turn) && (r.user == user))) h
note (Action.records now user bot thread turn total) t h = h
note (Action.prunes now) t h = h

-- The turns taken and not taken back, those known before included.
unfoldable pub taken : List Action → Meter → Map TurnRow → Map TurnRow
taken [] t h = h
taken (a ∷ more) t h = taken more (act a t) (note a t h)

abbrev Test : Type 0
Test = ℕ → TurnRow → Bool

tally : Test → Map TurnRow → ℕ
tally p [] = 0
tally p ((i, r) ∷ m) = let rest = tally p m in if p i r then suc rest else rest

tally-retain :
    (p q : Test) (m : Map TurnRow) → tally p (retain q m) ≡ tally (λ i r. q i r && p i r) m
unfolding tally retain
tally-retain p q [] = refl
tally-retain p q ((i, r) ∷ m) = ground (arith, tally-retain p q m)

tally_implied :
    (p q : Test) (m : Map TurnRow)
    → ((i : ℕ) (r : TurnRow) → p i r ≡ true → q i r ≡ true)
    → tally (λ i r. q i r && p i r) m ≡ tally p m
unfolding tally
tally_implied p q [] h = refl
tally_implied p q ((i, r) ∷ m) h = elim (Bool-cases (p i r)) [
  | inl e ↦ rw (tally, e, h i r e) (ap suc (tally_implied p q m h))
  | inr e ↦ elim (Bool-cases (q i r)) [
    | inl f ↦ rw (tally, e, f) (tally_implied p q m h)
    | inr f ↦ rw (tally, e, f) (tally_implied p q m h)
  ]
]

tally-insert :
    (p : Test) (id : ℕ) (r : TurnRow) (m : Map TurnRow)
    → fresh m ≤ id
    → tally p (insert id r m) ≡ tally p ((id, r) ∷ m)
unfolding tally insert fresh
tally-insert p id r [] h = refl
tally-insert p id r ((j, s) ∷ m) h =
    let e : (j == id) ≡ false = ground arith in
    let l : ltb id j ≡ false = ground arith in
    let ih = tally-insert p id r m (omega (arith, h)) in ground (arith, ih)

count_turns-tally :
    (user : UserId) (now : Timestamp) (m : Map TurnRow)
    → count_turns user now m ≡ tally (λ i r. (r.user == user) && within turn_window_ms now r.at) m
unfolding count_turns tally
count_turns-tally user now [] = refl
count_turns-tally user now ((i, r) ∷ m) = ground (arith, count_turns-tally user now m)

-- The test accepts turns only that a window counts at `now`.
abbrev Recent : Timestamp → Test → Type 0
Recent now p = (i : ℕ) (r : TurnRow) → p i r ≡ true → within turn_window_ms now r.at ≡ true

-- The meter keeps each turn taken as long as a window counts it.
abbrev Kept : Timestamp → Map TurnRow → Map TurnRow → Type 0
Kept now h m = (p : Test) → Recent now p → tally p h ≡ tally p m

tally-cons :
    (p : Test) (i : ℕ) (r : TurnRow) (h m : Map TurnRow)
    → tally p h ≡ tally p m
    → tally p ((i, r) ∷ h) ≡ tally p ((i, r) ∷ m)
unfolding tally
tally-cons p i r h m e = ground (arith, e)

reserve-Kept :
    (now : Timestamp) (user : UserId) (bot : BotId) (t : Meter) (h : Map TurnRow)
    → Kept now h t.turns
    → Kept now (note (Action.reserves now user bot) t h) (reserve_turn now user bot t).0.turns
unfolding note noted reserve_turn
reserve-Kept now user bot t h k p q =
    elim (Bool-cases (allowance now user (limits_of user t) t).exhausted) [
      | inl x ↦ rw (note, reserve_turn, x, noted) (k p q)
      | inr x ↦ elim (Option-cases (get bot t.bots)) [
        | inl n ↦ rw (note, reserve_turn, x, count_turn, n, noted) (k p q)
        | inr (o, g) ↦ elim (Bool-cases (o == user)) [
          | inl e ↦
              let r : TurnRow = record { user = user; bot = bot; at = now } in
              rw (note, reserve_turn, x, count_turn, g, e, noted)
                (tally-cons p (fresh t.turns) r h t.turns (k p q)
                  ∙ sym (tally-insert p (fresh t.turns) r t.turns (omega arith)))
          | inr e ↦ rw (note, reserve_turn, x, count_turn, g, e, noted) (k p q)
        ]
      ]
    ]

act-Kept :
    (a : Action) (t : Meter) (h : Map TurnRow)
    → Kept (time a) h t.turns
    → Kept (time a) (note a t h) (act a t).turns
unfolding note act time release_turn prune
act-Kept (Action.reserves now user bot) t h k p q = reserve-Kept now user bot t h k p q
act-Kept (Action.releases now user turn) t h k p q =
    let z : Test = λ id r. not ((id == turn) && (r.user == user)) in
    tally-retain p z h
    ∙ k (λ i r. z i r && p i r) (λ i r e. q i r (ground arith))
    ∙ sym (tally-retain p z t.turns)
act-Kept (Action.records now user bot thread turn total) t h k p q =
    k p q ∙ ap (tally p) (sym (record-turns now user bot thread turn total t))
act-Kept (Action.prunes now) t h k p q =
    let z : Test = λ i r. within turn_window_ms now r.at in
    k p q ∙ sym (tally_implied p z t.turns q) ∙ sym (tally-retain p z t.turns)

later-Kept :
    (now later : Timestamp) (h m : Map TurnRow) → now ≤ later → Kept now h m → Kept later h m
later-Kept now later h m l k p q = k p λ i r e. let w = q i r e in ground arith

run-Kept :
    (start : Timestamp) (l : List Action) (t : Meter) (h : Map TurnRow)
    → InTime start l
    → Kept start h t.turns
    → Kept (last_time start l) (taken l t h) (run l t).turns
unfolding taken run
run-Kept start [] t h i k = k
run-Kept start (a ∷ l) t h i k =
    run-Kept (time a) l (act a t) (note a t h) i.1
      (act-Kept a t h (later-Kept start (time a) h t.turns i.0 k))

-- Let the windows of a user have the user's limit of daily turns, a `u32`, at most from `start` on,
-- as those of a meter without turns have, and let the clock not run back. Then after any turns
-- counted and taken back, tokens recorded and prunes, of all the turns that the user took and that
-- were not taken back, with those of the meter at the start, whether or not the meter still keeps
-- them, the 24 hours before any time that is not before the last of these have the limit at most;
-- and the meter counts exactly these.
pub run-Within :
    (user : UserId) (limit : ℕ) (start : Timestamp) (l : List Action) (t : Meter)
    → (limits_of user t).daily_turns ≡ some limit
    → limit < 2 ^ 32
    → InTime start l
    → Within user limit start t
    → (later : Timestamp) → last_time start l ≤ later
    → (count_turns user later (taken l t t.turns) ≤ limit)
      × (count_turns user later (run l t).turns ≡ count_turns user later (taken l t t.turns))
run-Within user limit start l t e b i w later h =
    let u = (run l t).turns in
    let v = taken l t t.turns in
    let p : Test = λ j r. (r.user == user) && within turn_window_ms later r.at in
    let k : tally p v ≡ tally p u =
      later-Kept _ later v u h (run-Kept start l t t.turns i (λ q r. refl)) p
        (λ j r c. ground arith) in
    let same : count_turns user later u ≡ count_turns user later v =
      count_turns-tally user later u ∙ sym k ∙ sym (count_turns-tally user later v) in
    let most = run-turns user limit start l t e b i w later h in (omega (arith, most, same), same)
