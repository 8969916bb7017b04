-- ===== src/Store/Arrivals.antt =====
-- store.rs: the events that arrive while a snapshot loads, and the reloads that `finish` reports.
use bokkie.Prelude.{
  ◌+◌, ◌≤◌, ◌<◌, ◌≡◌, refl, sym, ap, ◌∙◌, inl, inr, Bool, true, false, List, [], ◌∷◌, ◌++◌, arith,
  not, ◌&&◌, ◌||◌, if◌then◌else◌, length, length-append, Bool-cases,
}
use mathlib.Core.List.{append-nil, append_assoc}
use bokkie.Protocol.Events.{EventEnvelope}
use bokkie.Store.Snapshots.{Snapshot, Snapshots, Applied, contains, same_snapshot, is_empty}
use bokkie.Store.State.{Store, max_held}
use bokkie.Store.Loads.{start_reloads, finish}
use bokkie.Store.Apply.{hold, parts, apply}
use bokkie.Store.Frames.{parts-SameLoads}
use bokkie.Store.Holding.{start_reloads-Grown}
use bokkie.Store.Loading.{apply_all}

hold-held :
    (s : Store) (e : EventEnvelope)
    → is_empty s.loading ≡ false
    → length s.held < max_held
    → (hold s e).held ≡ s.held ++ e ∷ []
unfolding hold
hold-held s e busy room = ground arith

hold-loading : (s : Store) (e : EventEnvelope) → (hold s e).loading ≡ s.loading
unfolding hold
hold-loading s e = ground arith

finish-held : (s : Store) (a : Applied) → (finish s a).0.held ≡ s.held
unfolding finish
finish-held s a = refl

finish-busy :
    (s : Store) (a : Applied) → is_empty s.loading ≡ false → is_empty (finish s a).0.loading ≡ false
unfolding finish
finish-busy s a busy = ground (arith, start_reloads-Grown a.reload s.loading)

apply-held :
    (s : Store) (e : EventEnvelope)
    → is_empty s.loading ≡ false
    → length s.held < max_held
    → (apply s e).0.held ≡ s.held ++ e ∷ []
unfolding apply
apply-held s e busy room =
    finish-held (parts (hold s e) e).0 _
    ∙ (parts-SameLoads (hold s e) e).held
    ∙ hold-held s e busy room

apply-busy :
    (s : Store) (e : EventEnvelope)
    → is_empty s.loading ≡ false
    → is_empty (apply s e).0.loading ≡ false
unfolding apply
apply-busy s e busy =
    finish-busy (parts (hold s e) e).0 _
      (ap is_empty ((parts-SameLoads (hold s e) e).loading ∙ hold-loading s e) ∙ busy)

-- While a snapshot loads, and as long as there is room for them, no event that arrives is lost: all
-- of them are held, in their order, behind those held before.
pub apply_all-held :
    (s : Store) (es : List EventEnvelope)
    → is_empty s.loading ≡ false
    → length s.held + length es ≤ max_held
    → (apply_all s es).held ≡ s.held ++ es
unfolding apply_all
apply_all-held s [] busy room = sym (append-nil s.held)
apply_all-held s (e ∷ es) busy room =
    apply_all-held (apply s e).0 es (apply-busy s e busy)
      (rw (apply-held s e busy (omega arith), length-append) (omega arith))
    ∙ ap (λ t. t ++ es) (apply-held s e busy (omega arith))
    ∙ append_assoc s.held (e ∷ []) es

-- Whether a list has no snapshot twice.
unfoldable pub no_repeats : Snapshots → Bool
unfolding contains
no_repeats [] = true
no_repeats (x ∷ xs) = let rest = no_repeats xs in if contains xs x then false else rest

same_snapshot_refl : (x : Snapshot) → same_snapshot x x ≡ true
same_snapshot_refl Snapshot.bots = refl
same_snapshot_refl (Snapshot.messages b) = ground arith
same_snapshot_refl (Snapshot.older b) = ground arith
same_snapshot_refl (Snapshot.routines b) = ground arith

same_snapshot_eq : (x y : Snapshot) → same_snapshot x y ≡ true → x ≡ y
same_snapshot_eq Snapshot.bots y h = ground arith
same_snapshot_eq (Snapshot.messages b) y h = ground arith
same_snapshot_eq (Snapshot.older b) y h = ground arith
same_snapshot_eq (Snapshot.routines b) y h = ground arith

contains_same :
    (l : Snapshots) (x y : Snapshot) → same_snapshot x y ≡ true → contains l x ≡ contains l y
contains_same l x y h = ap (contains l) (same_snapshot_eq x y h)

start_reloads-loading :
    (xs loading : Snapshots) (y : Snapshot)
    → contains (start_reloads xs loading).1 y ≡ (contains loading y || contains xs y)
unfolding start_reloads contains
start_reloads-loading [] loading y = ground arith
start_reloads-loading (x ∷ xs) loading y =
    let same = contains_same loading x y in
    elim (Bool-cases (contains loading x)) [
      | inl q ↦
          rw (q, start_reloads, contains) (ground (arith, start_reloads-loading xs loading y, same))
      | inr q ↦
          rw (q, start_reloads, contains)
            (ground (arith, start_reloads-loading xs (x ∷ loading) y, same))
    ]

start_reloads-reported :
    (xs loading : Snapshots) (y : Snapshot)
    → contains (start_reloads xs loading).0 y ≡ (not (contains loading y) && contains xs y)
unfolding start_reloads contains
start_reloads-reported [] loading y = ground arith
start_reloads-reported (x ∷ xs) loading y =
    let same = contains_same loading x y in
    elim (Bool-cases (contains loading x)) [
      | inl q ↦
          rw (q, start_reloads, contains)
            (ground (arith, start_reloads-reported xs loading y, same))
      | inr q ↦
          rw (q, start_reloads, contains)
            (ground (arith, start_reloads-reported xs (x ∷ loading) y, same))
    ]

start_reloads-no_repeats : (xs loading : Snapshots) → no_repeats (start_reloads xs loading).0 ≡ true
unfolding start_reloads no_repeats
start_reloads-no_repeats [] loading = refl
start_reloads-no_repeats (x ∷ xs) loading = elim (Bool-cases (contains loading x)) [
  | inl q ↦ rw (q, start_reloads) (start_reloads-no_repeats xs loading)
  | inr q ↦
      rw (q, start_reloads, no_repeats)
        (ground (
          arith,
          start_reloads-no_repeats xs (x ∷ loading),
          start_reloads-reported xs (x ∷ loading) x,
          same_snapshot_refl x,
        ))
]

-- What `finish` reports to be loaded are the reloads asked for that were not loading, each once;
-- and afterwards exactly these and what was loading before count as loading.
pub finish-reload :
    (s : Store) (a : Applied) (y : Snapshot)
    → (contains (finish s a).1.reload y ≡ (not (contains s.loading y) && contains a.reload y))
      × (contains (finish s a).0.loading y ≡ (contains s.loading y || contains a.reload y))
      × (no_repeats (finish s a).1.reload ≡ true)
unfolding finish
finish-reload s a y = (
  start_reloads-reported a.reload s.loading y,
  start_reloads-loading a.reload s.loading y,
  start_reloads-no_repeats a.reload s.loading,
)
