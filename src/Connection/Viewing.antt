-- ===== src/Connection/Viewing.antt =====
-- What the gateway hears of the Bot that the page shows, against what the page shows.
use bokkie.Prelude.{◌≡◌, Option, none, List, [], ◌∷◌}
use bokkie.Protocol.Routines.{BotId}
use bokkie.Protocol.Events.{ClientFrame}
use bokkie.Connection.Machine.{State, Command, Connection}
use bokkie.Connection.Steps.{shown}

-- What the gateway holds of the newest socket: nothing when it opens, and then the last thing said.
abbrev pub heard : Option BotId → List Command → Option BotId
heard b [] = b
heard b (Command.connect ∷ cs) = heard none cs
heard b (Command.send (ClientFrame.viewing bot) ∷ cs) = heard bot cs
heard b (Command.send (ClientFrame.resume _) ∷ cs) = heard b cs
heard b (Command.send ClientFrame.ping ∷ cs) = heard b cs
heard b (_ ∷ cs) = heard b cs

-- A live socket has said what the page shows; one that is not live yet has said nothing.
abbrev InformedAt : State → Option BotId → Option BotId → Option BotId → Type 0
InformedAt State.live b told bot = (b ≡ told) × (told ≡ bot)
InformedAt State.connecting b told bot = b ≡ none
InformedAt State.resuming b told bot = b ≡ none
InformedAt State.replaying b told bot = b ≡ none
InformedAt _ b told bot = Unit

abbrev pub Informed : Option BotId → Connection → Type 0
Informed b c = InformedAt c.state b c.told (shown c)
