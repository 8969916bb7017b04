-- ===== src/Presence/Saying.antt =====
-- presence.rs: what each connection last said, over all that the connections say and forget.
use bokkie.Prelude.{
  ℕ, ◌≡◌, refl, sym, ap, ◌∙◌, inl, inr, Bool, true, ◌&&◌, Option, none, some, List, [], ◌∷◌, arith,
  ◌==◌, ==_iff, if◌then◌else◌, Bool-cases,
}
use bokkie.Protocol.Api.{UserId}
use bokkie.Protocol.Routines.{BotId}
use bokkie.Maps.{Map, get, insert, remove, get-insert, get-remove}
use bokkie.Presence.Viewers.{
  Shown, Presence, Viewer, connections, until, keep, forget, set, show, drop,
}

-- A connection shows a Bot or nothing, or is dropped, at a time of the clock.
pub data Saying : Type 0 where
  shows : (now : ℕ) → Viewer → Option BotId → Saying
  drops : (now : ℕ) → Viewer → Saying

unfoldable pub say : Presence → Saying → Presence
say p (Saying.shows now v bot) = show now p v bot
say p (Saying.drops now v) = drop now p v

unfoldable pub say_all : Presence → List Saying → Presence
unfolding say
say_all p [] = p
say_all p (a ∷ rest) = say_all (say p a) rest

-- What a connection's entry is.
unfoldable pub said : Presence → UserId → ℕ → Option Shown
said p user id = get id (connections (get user p.shown))

abbrev pub entry : ℕ → Option BotId → Option Shown
entry now none = none
entry now (some bot) = some (record { bot = bot; until_ms = until now })

abbrev pub is_viewer : UserId → ℕ → UserId → ℕ → Bool
is_viewer user id user' id' = user == user' && id == id'

keep-said :
    (p : Presence) (user : UserId) (cs : Map Shown) (user' : UserId) (id' : ℕ)
    → said (keep p user cs) user' id' ≡ (if user == user' then get id' cs else said p user' id')
unfolding keep said
keep-said p user [] user' id' = elim (Bool-cases (user == user')) [
  | inl q ↦ rw (get-remove user user' p.shown, q) refl
  | inr q ↦ rw (get-remove user user' p.shown, q) refl
]
keep-said p user (c ∷ cs) user' id' = elim (Bool-cases (user == user')) [
  | inl q ↦ rw (get-insert user user' (c ∷ cs) p.shown, q) refl
  | inr q ↦ rw (get-insert user user' (c ∷ cs) p.shown, q) refl
]

-- The user's own connections, under any name of the user.
said_at :
    (p : Presence) (user user' : UserId) (id' : ℕ)
    → (user == user') ≡ true
    → get id' (connections (get user p.shown)) ≡ said p user' id'
unfolding said
said_at p user user' id' q =
    ap (λ u. get id' (connections (get u p.shown))) ((==_iff user user').0 q)

show-said :
    (now : ℕ) (p : Presence) (user : UserId) (id : ℕ) (bot : BotId) (user' : UserId) (id' : ℕ)
    → said (set now p user id (some bot)) user' id'
      ≡ (if is_viewer user id user' id' then entry now (some bot) else said p user' id')
unfolding said set
show-said now p user id bot user' id' =
    let cs =
      insert id (record { bot = bot; until_ms = until now }) (connections (get user p.shown)) in
    elim (Bool-cases (user == user')) [
      | inl q ↦
          rw (get-insert user user' cs p.shown, q)
            (get-insert id id' (record { bot = bot; until_ms = until now })
                (connections (get user p.shown))
              ∙ ap (λ o. if id == id' then entry now (some bot) else o)
                  (said_at p user user' id' q))
      | inr q ↦ rw (get-insert user user' cs p.shown, q) refl
    ]

forget-said :
    (p : Presence) (user : UserId) (id : ℕ) (user' : UserId) (id' : ℕ) (o : Option (Map Shown))
    → get user p.shown ≡ o
    → said (forget p user id o) user' id'
      ≡ (if is_viewer user id user' id' then none else said p user' id')
unfolding forget get
forget-said p user id user' id' none g = elim (Bool-cases (is_viewer user id user' id')) [
  | inl q ↦
      rw q (sym (said_at p user user' id' (ground arith)) ∙ ap (λ o. get id' (connections o)) g)
  | inr q ↦ rw q refl
]
forget-said p user id user' id' (some cs) g =
    keep-said p user (remove id cs) user' id' ∙ elim (Bool-cases (user == user')) [
      | inl q ↦ rw q (
          get-remove id id' cs
          ∙ ap (λ o. if id == id' then none else o)
              (ap (λ o. get id' (connections o)) (sym g) ∙ said_at p user user' id' q))
      | inr q ↦ rw q refl
    ]

pub set-said :
    (now : ℕ) (p : Presence) (user : UserId) (id : ℕ) (bot : Option BotId) (user' : UserId)
    (id' : ℕ)
    → said (set now p user id bot) user' id'
      ≡ (if is_viewer user id user' id' then entry now bot else said p user' id')
unfolding set
set-said now p user id (some bot) user' id' = show-said now p user id bot user' id'
set-said now p user id none user' id' = forget-said p user id user' id' (get user p.shown) refl
