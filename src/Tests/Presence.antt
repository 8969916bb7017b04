-- ===== src/Tests/Presence.antt =====
-- The devices of a user that show a Bot, and one that stops.
use bokkie.Prelude.{◌≡◌, some, List, [], ◌∷◌}
use bokkie.Protocol.Routines.{BotId}
use bokkie.Presence.Viewers.{Viewer, new, is_shown, shown_bots}
use bokkie.Presence.Listing.{lists, Increasing, shown_bots-is_shown}
use bokkie.Presence.Saying.{Saying, say_all}

abbrev phone : Viewer
phone = record { user = 5; id = 1 }

abbrev desk : Viewer
desk = record { user = 5; id = 2 }

abbrev history : List Saying
history =
    Saying.shows 1000 phone (some 7)
    ∷ Saying.shows 2000 desk (some 3)
    ∷ Saying.shows 30000 phone (some 7)
    ∷ Saying.drops 40000 desk
    ∷ []

shown_bots-is_shown_example :
    ((b : BotId)
      → lists (shown_bots 50000 (say_all new history) 5) b
        ≡ is_shown 50000 (say_all new history) 5 b)
    × Increasing (shown_bots 50000 (say_all new history) 5)
shown_bots-is_shown_example = shown_bots-is_shown 50000 (say_all new history) 5
