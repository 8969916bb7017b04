-- ===== src/Allowances/Windows.antt =====
-- The turns of a user in any 24 hours, under crates/bokkie-gateway/src/usage.rs.
use bokkie.Prelude.{
  ℕ, ◌-◌, ◌^◌, ◌≤◌, ◌<◌, ◌≡◌, refl, sym, subst, ◌∙◌, inl, inr, min, true, false, not, ◌&&◌,
  Bool-cases, Option, none, some, Option-cases, List, [], ◌∷◌, arith, leb, ◌==◌, ==_iff, ap,
}
use bokkie.Maps.{get}
use bokkie.Protocol.Routines.{Text, Timestamp, BotId}
use bokkie.Protocol.Api.{UserId}
use bokkie.Routines.Lookups.{fresh}
use bokkie.Allowances.Meter.{
  Meter, TurnRow, turn_window_ms, within, count_turns, reaches, allowance, limits_of, count_turn,
  reserve_turn, release_turn, record_turn_tokens, reported_on, prune,
}
use bokkie.Allowances.Counts.{count-insert, count-insert_other, count-retain, count-later}

-- What happens to the meter, at a time.
pub data Action : Type 0 where
  reserves : Timestamp → UserId → BotId → Action
  releases : Timestamp → UserId → (turn : ℕ) → Action
  records : Timestamp → UserId → BotId → Text → Option Text → ℕ → Action
  prunes : Timestamp → Action

unfoldable pub time : Action → Timestamp
time (reserves now user bot) = now
time (releases now user turn) = now
time (records now user bot thread turn total) = now
time (prunes now) = now

unfoldable pub act : Action → Meter → Meter
act (reserves now user bot) t = (reserve_turn now user bot t).0
act (releases now user turn) t = release_turn user turn t
act (records now user bot thread turn total) t =
    (record_turn_tokens now user bot thread turn total t).0
act (prunes now) t = prune now t

unfoldable pub run : List Action → Meter → Meter
run [] t = t
run (a ∷ more) t = run more (act a t)

-- The actions come one after another, none before `start`.
abbrev pub InTime : Timestamp → List Action → Type 0
InTime start [] = Unit
InTime start (a ∷ more) = (start ≤ time a) × InTime (time a) more

abbrev pub last_time : Timestamp → List Action → Timestamp
last_time start [] = start
last_time start (a ∷ more) = last_time (time a) more

-- From `now` on, the windows of the user have the limit at most.
abbrev pub Within : UserId → ℕ → Timestamp → Meter → Type 0
Within user limit now t = (later : Timestamp) → now ≤ later → count_turns user later t.turns ≤ limit

count_turn-Within :
    (user : UserId) (limit : ℕ) (now : Timestamp) (other : UserId) (bot : BotId) (t : Meter)
    → Within user limit now t
    → ((other == user) ≡ true → count_turns user now t.turns < limit)
    → Within user limit now (count_turn now other bot t).0
unfolding count_turn
count_turn-Within user limit now other bot t w left later h = elim (Option-cases (get bot t.bots)) [
  | inl n ↦ rw (n, count_turn) (w later h)
  | inr (owner, g) ↦ elim (Bool-cases (owner == other)) [
    | inl e ↦
        let row : TurnRow = record { user = other; bot = bot; at = now } in
        rw (g, e, count_turn)
          (elim (Bool-cases (other == user)) [
            | inl c ↦
                let one = left c in
                omega (
                  arith,
                  one,
                  count-insert user later (fresh t.turns) row t.turns,
                  count-later user now later t.turns h,
                )
            | inr c ↦
                omega
                  (arith, w later h, count-insert_other user later (fresh t.turns) row t.turns c)
          ])
    | inr e ↦ rw (g, e, count_turn) (w later h)
  ]
]

-- An allowance that is not exhausted has a turn left.
turn_left :
    (user : UserId) (limit : ℕ) (now : Timestamp) (t : Meter)
    → (limits_of user t).daily_turns ≡ some limit
    → limit < 2 ^ 32
    → (allowance now user (limits_of user t) t).exhausted ≡ false
    → count_turns user now t.turns < limit
unfolding allowance reaches
turn_left user limit now t l b h =
    let c = min (count_turns user now t.turns) (2 ^ 32 - 1) in
    let f : reaches (limits_of user t).daily_turns c ≡ false = ground arith in
    let g : leb limit c ≡ false = subst (λ o. reaches o c ≡ false) l f in ground arith

reserve-Within :
    (user : UserId) (limit : ℕ) (now : Timestamp) (other : UserId) (bot : BotId) (t : Meter)
    → (limits_of user t).daily_turns ≡ some limit
    → limit < 2 ^ 32
    → Within user limit now t
    → Within user limit now (reserve_turn now other bot t).0
unfolding reserve_turn
reserve-Within user limit now other bot t l b w later h =
    elim (Bool-cases (allowance now other (limits_of other t) t).exhausted) [
      | inl q ↦ rw (q, reserve_turn) (w later h)
      | inr q ↦
          rw (q, reserve_turn)
            (count_turn-Within user limit now other bot t w
              (λ e.
                let same : other ≡ user = (==_iff other user).0 e in
                turn_left user limit now t l b
                  (subst (λ u. (allowance now u (limits_of u t) t).exhausted ≡ false) same q))
              later h)
    ]

pub record-turns :
    (now : Timestamp) (user : UserId) (bot : BotId) (thread : Text) (turn : Option Text) (total : ℕ)
    (t : Meter)
    → (record_turn_tokens now user bot thread turn total t).0.turns ≡ t.turns
unfolding record_turn_tokens
record-turns now user bot thread turn total t =
    elim (Option-cases (reported_on user thread bot t.threads)) [
      | inl n ↦ rw (record_turn_tokens, n) refl
      | inr (o, g) ↦ rw (record_turn_tokens, g) refl
    ]

act-Within :
    (user : UserId) (limit : ℕ) (a : Action) (t : Meter)
    → (limits_of user t).daily_turns ≡ some limit
    → limit < 2 ^ 32
    → Within user limit (time a) t
    → Within user limit (time a) (act a t)
unfolding act time release_turn record_turn_tokens prune
act-Within user limit (reserves now other bot) t l b w later h =
    reserve-Within user limit now other bot t l b w later h
act-Within user limit (releases now other turn) t l b w later h = omega (
  arith,
  w later h,
  count-retain user later (λ id r. not ((id == turn) && (r.user == other))) t.turns,
)
act-Within user limit (records now other bot thread turn total) t l b w later h =
    subst (λ m. count_turns user later m ≤ limit)
      (sym (record-turns now other bot thread turn total t)) (w later h)
act-Within user limit (prunes now) t l b w later h =
    omega
      (arith, w later h, count-retain user later (λ id r. within turn_window_ms now r.at) t.turns)

reserve-limits :
    (now : Timestamp) (user : UserId) (bot : BotId) (t : Meter)
    → (reserve_turn now user bot t).0.limits ≡ t.limits
unfolding reserve_turn count_turn
reserve-limits now user bot t =
    elim (Bool-cases (allowance now user (limits_of user t) t).exhausted) [
      | inl q ↦ rw (reserve_turn, q) refl
      | inr q ↦ elim (Option-cases (get bot t.bots)) [
        | inl n ↦ rw (reserve_turn, q, count_turn, n) refl
        | inr (o, g) ↦ elim (Bool-cases (o == user)) [
          | inl e ↦ rw (reserve_turn, q, count_turn, g, e) refl
          | inr e ↦ rw (reserve_turn, q, count_turn, g, e) refl
        ]
      ]
    ]

-- No action changes the limits.
act-limits : (a : Action) (t : Meter) → (act a t).limits ≡ t.limits
unfolding act release_turn record_turn_tokens prune
act-limits (reserves now user bot) t = reserve-limits now user bot t
act-limits (releases now user turn) t = refl
act-limits (records now user bot thread turn total) t =
    elim (Option-cases (reported_on user thread bot t.threads)) [
      | inl n ↦ rw (act, record_turn_tokens, n) refl
      | inr (o, g) ↦ rw (act, record_turn_tokens, g) refl
    ]
act-limits (prunes now) t = refl

limits_of-act :
    (user : UserId) (a : Action) (t : Meter) → limits_of user (act a t) ≡ limits_of user t
unfolding limits_of
limits_of-act user a t =
    ap
      (λ m. elim (get user m) [
        | none ↦ record { daily_turns = none; weekly_tokens = none }
        | some l ↦ l
      ])
      (act-limits a t)

-- The rows that the meter keeps are never more than the limit in a window.
pub run-turns :
    (user : UserId) (limit : ℕ) (start : Timestamp) (l : List Action) (t : Meter)
    → (limits_of user t).daily_turns ≡ some limit
    → limit < 2 ^ 32
    → InTime start l
    → Within user limit start t
    → (later : Timestamp) → last_time start l ≤ later
    → count_turns user later (run l t).turns ≤ limit
unfolding run
run-turns user limit start [] t e b i w later h = w later h
run-turns user limit start (a ∷ l) t e b i w later h =
    run-turns user limit (time a) l (act a t) (ap (λ x. x.daily_turns) (limits_of-act user a t) ∙ e)
      b i.1 (act-Within user limit a t e b λ x y. w x (omega (arith, i.0))) later h
