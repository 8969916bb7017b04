-- ===== src/Store/Snapshots.antt =====
-- store.rs: the parts of the state that load from one HTTP snapshot, sets of them, and `Applied`.
-- A set is a list without repeats; nothing that the model computes depends on its order.
use bokkie.Prelude.{Bool, true, false, ◌||◌, List, [], ◌∷◌, ◌==◌, if◌then◌else◌}
use bokkie.Protocol.Routines.{BotId}

pub data Snapshot : Type 0 where
  bots : Snapshot
  messages older routines : BotId → Snapshot

abbrev pub same_snapshot : Snapshot → Snapshot → Bool
same_snapshot Snapshot.bots Snapshot.bots = true
same_snapshot (Snapshot.messages a) (Snapshot.messages b) = a == b
same_snapshot (Snapshot.older a) (Snapshot.older b) = a == b
same_snapshot (Snapshot.routines a) (Snapshot.routines b) = a == b
same_snapshot _ _ = false

abbrev pub Snapshots : Type 0
Snapshots = List Snapshot

unfoldable pub contains : Snapshots → Snapshot → Bool
contains [] s = false
contains (x ∷ xs) s = same_snapshot x s || contains xs s

unfoldable pub add : Snapshot → Snapshots → Snapshots
unfolding contains
add s xs = if contains xs s then xs else s ∷ xs

unfoldable pub without : Snapshot → Snapshots → Snapshots
without s [] = []
without s (x ∷ xs) = let rest = without s xs in if same_snapshot x s then rest else x ∷ rest

unfoldable pub add_all : Snapshots → Snapshots → Snapshots
unfolding add
add_all [] ys = ys
add_all (x ∷ xs) ys = add_all xs (add x ys)

abbrev pub is_empty {ℓ} : {A : Type ℓ} → List A → Bool
is_empty [] = true
is_empty (_ ∷ _) = false

pub record Applied : Type 0 where
  pub changed : Bool
  pub reload : Snapshots

-- `Applied::changed`, `Applied::reload`, `Applied::default` and `Applied::merge`.
abbrev pub changes : Bool → Applied
changes changed = record { changed = changed; reload = [] }

abbrev pub reloads : Snapshot → Applied
reloads s = record { changed = false; reload = s ∷ [] }

abbrev pub unchanged : Applied
unchanged = changes false

unfoldable pub merge : Applied → Applied → Applied
unfolding add_all
merge a b = record { changed = a.changed || b.changed; reload = add_all b.reload a.reload }
