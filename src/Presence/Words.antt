-- ===== src/Presence/Words.antt =====
-- presence.rs: whether a Bot counts as shown, against what each connection said last.
use bokkie.Prelude.{ℕ, Bool, false, ◌&&◌, Option, none, some, List, [], ◌∷◌, ◌==◌, if◌then◌else◌}
use bokkie.Protocol.Api.{UserId}
use bokkie.Protocol.Routines.{BotId}
use bokkie.Maps.{get, Ascending}
use bokkie.Presence.Viewers.{Shown, Presence, connections, holds_now}
use bokkie.Presence.Saying.{Saying, entry, is_viewer}

-- What a connection's last word leaves, from what it left before.
unfoldable pub last_word : Option Shown → List Saying → UserId → ℕ → Option Shown
last_word o [] user id = o
last_word o (Saying.shows now v bot ∷ rest) user id =
    last_word (if is_viewer v.user v.id user id then entry now bot else o) rest user id
last_word o (Saying.drops now v ∷ rest) user id =
    last_word (if is_viewer v.user v.id user id then none else o) rest user id

abbrev pub counts : ℕ → BotId → Option Shown → Bool
counts now bot none = false
counts now bot (some s) = s.bot == bot && holds_now now s

-- No connection has two entries.
Tidy : Presence → Type 0
Tidy p = (user : UserId) → Ascending (connections (get user p.shown))
