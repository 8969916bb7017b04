-- ===== src/Presence/Viewers.antt =====
-- presence.rs: `Presence` and `Viewer`. The clock's reading is an argument, in milliseconds since the
-- epoch.
use bokkie.Prelude.{
  ℕ, ◌+◌, ◌-◌, ◌%◌, ◌^◌, min, Bool, false, ◌&&◌, ◌||◌, Option, none, some, List, [], ◌∷◌, ltb, ◌==◌,
  if◌then◌else◌,
}
use bokkie.Protocol.Api.{UserId}
use bokkie.Protocol.Routines.{BotId}
use bokkie.Protocol.Events.{viewing_expires_ms}
use bokkie.Maps.{Map, get, insert, remove, values}

abbrev pub i64_max : ℕ
i64_max = 2 ^ 63 - 1

-- What one connection last said it shows, and until when that holds.
pub record Shown : Type 0 where
  pub bot : BotId
  pub until_ms : ℕ

pub record Presence : Type 0 where
  pub next : ℕ
  pub shown : Map (Map Shown)

pub record Viewer : Type 0 where
  pub user : UserId
  pub id : ℕ

unfoldable pub new : Presence
new = record { next = 1; shown = [] }

-- `Presence::connect`: the counter is an `AtomicU64`.
unfoldable pub connect : Presence → UserId → Presence × Viewer
connect p user = (record p { next = (p.next + 1) % 2 ^ 64 }, record { user = user; id = p.next })

abbrev pub connections : Option (Map Shown) → Map Shown
connections none = []
connections (some cs) = cs

abbrev pub until : ℕ → ℕ
until now = min (now + viewing_expires_ms) i64_max

-- What is left of a user's connections.
unfoldable pub keep : Presence → UserId → Map Shown → Presence
keep p user [] = record p { shown = remove user p.shown }
keep p user (c ∷ cs) = record p { shown = insert user (c ∷ cs) p.shown }

unfoldable pub forget : Presence → UserId → ℕ → Option (Map Shown) → Presence
unfolding keep
forget p user id none = p
forget p user id (some cs) = keep p user (remove id cs)

-- `Presence::set`.
unfoldable pub set : ℕ → Presence → UserId → ℕ → Option BotId → Presence
unfolding forget
set now p user id (some bot) =
    let said : Shown = record { bot = bot; until_ms = until now } in
    record p { shown = insert user (insert id said (connections (get user p.shown))) p.shown }
set now p user id none = forget p user id (get user p.shown)

-- `Viewer::show`, and `Viewer::drop`.
unfoldable pub show : ℕ → Presence → Viewer → Option BotId → Presence
show now p v bot = set now p v.user v.id bot

unfoldable pub drop : ℕ → Presence → Viewer → Presence
drop now p v = set now p v.user v.id none

abbrev pub holds_now : ℕ → Shown → Bool
holds_now now s = ltb now s.until_ms

unfoldable pub any_shows : ℕ → BotId → List Shown → Bool
any_shows now bot [] = false
any_shows now bot (s ∷ ss) = (s.bot == bot && holds_now now s) || any_shows now bot ss

-- `Presence::is_shown`.
unfoldable pub is_shown : ℕ → Presence → UserId → BotId → Bool
unfolding any_shows
is_shown now p user bot = any_shows now bot (values (connections (get user p.shown)))

unfoldable pub bots_now : ℕ → List Shown → List BotId
bots_now now [] = []
bots_now now (s ∷ ss) = let rest = bots_now now ss in if holds_now now s then s.bot ∷ rest else rest

-- `Vec::sort`.
unfoldable pub insert_sorted : BotId → List BotId → List BotId
insert_sorted b [] = b ∷ []
insert_sorted b (x ∷ xs) = let rest = insert_sorted b xs in if ltb x b then x ∷ rest else b ∷ x ∷ xs

unfoldable pub sort : List BotId → List BotId
unfolding insert_sorted
sort [] = []
sort (b ∷ bs) = insert_sorted b (sort bs)

-- `Vec::dedup`: drops each element that equals the one before.
unfoldable pub dedup_after : BotId → List BotId → List BotId
dedup_after b [] = []
dedup_after b (x ∷ xs) = let rest = dedup_after x xs in if x == b then rest else x ∷ rest

unfoldable pub dedup : List BotId → List BotId
unfolding dedup_after
dedup [] = []
dedup (b ∷ bs) = b ∷ dedup_after b bs

-- `Presence::shown`.
unfoldable pub shown_bots : ℕ → Presence → UserId → List BotId
unfolding bots_now sort dedup
shown_bots now p user = dedup (sort (bots_now now (values (connections (get user p.shown)))))
