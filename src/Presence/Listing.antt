-- ===== src/Presence/Listing.antt =====
-- presence.rs: what `Presence::shown` lists.
use bokkie.Prelude.{
  inl, inr, subst, ==_iff, ℕ, ◌≤◌, ◌<◌, ◌≡◌, refl, ◌∙◌, Bool, false, ◌||◌, List, [], ◌∷◌, arith,
  ltb, ◌==◌, Bool-cases,
}
use bokkie.Protocol.Api.{UserId}
use bokkie.Protocol.Routines.{BotId}
use bokkie.Maps.{get, values}
use bokkie.Presence.Viewers.{
  Shown, Presence, connections, any_shows, is_shown, bots_now, insert_sorted, sort, dedup_after,
  dedup, shown_bots,
}

unfoldable pub lists : List BotId → BotId → Bool
lists [] b = false
lists (x ∷ xs) b = x == b || lists xs b

-- Strictly increasing, from above a first number on.
abbrev pub IncreasingFrom : ℕ → List BotId → Type 0
IncreasingFrom b [] = Unit
IncreasingFrom b (x ∷ xs) = (b < x) × IncreasingFrom x xs

abbrev pub Increasing : List BotId → Type 0
Increasing [] = Unit
Increasing (x ∷ xs) = IncreasingFrom x xs

abbrev SortedFrom : ℕ → List BotId → Type 0
SortedFrom b [] = Unit
SortedFrom b (x ∷ xs) = (b ≤ x) × SortedFrom x xs

lists-bots_now :
    (now : ℕ) (ss : List Shown) (b : BotId) → lists (bots_now now ss) b ≡ any_shows now b ss
unfolding lists bots_now any_shows
lists-bots_now now [] b = refl
lists-bots_now now (s ∷ ss) b = ground (arith, lists-bots_now now ss b)

lists-insert_sorted :
    (x : BotId) (xs : List BotId) (b : BotId)
    → lists (insert_sorted x xs) b ≡ (x == b || lists xs b)
unfolding lists insert_sorted
lists-insert_sorted x [] b = refl
lists-insert_sorted x (y ∷ ys) b = ground (arith, lists-insert_sorted x ys b)

lists-sort : (xs : List BotId) (b : BotId) → lists (sort xs) b ≡ lists xs b
unfolding lists sort
lists-sort [] b = refl
lists-sort (x ∷ xs) b = ground (arith, lists-insert_sorted x (sort xs) b, lists-sort xs b)

lists-dedup_after :
    (x : BotId) (xs : List BotId) (b : BotId)
    → (x == b || lists (dedup_after x xs) b) ≡ (x == b || lists xs b)
unfolding lists dedup_after
lists-dedup_after x [] b = refl
lists-dedup_after x (y ∷ ys) b = ground (arith, lists-dedup_after y ys b)

lists-dedup : (xs : List BotId) (b : BotId) → lists (dedup xs) b ≡ lists xs b
unfolding lists dedup
lists-dedup [] b = refl
lists-dedup (x ∷ xs) b = lists-dedup_after x xs b

insert_sorted-SortedFrom :
    (n x : BotId) (xs : List BotId) → n ≤ x → SortedFrom n xs → SortedFrom n (insert_sorted x xs)
unfolding insert_sorted
insert_sorted-SortedFrom n x [] h s = (h, tt)
insert_sorted-SortedFrom n x (y ∷ ys) h s = elim (Bool-cases (ltb y x)) [
  | inl q ↦ rw (q, insert_sorted) (s.0, insert_sorted-SortedFrom y x ys (ground arith) s.1)
  | inr q ↦ rw (q, insert_sorted) (h, ((ground arith), s.1))
]

sort-SortedFrom : (xs : List BotId) → SortedFrom 0 (sort xs)
unfolding sort
sort-SortedFrom [] = tt
sort-SortedFrom (x ∷ xs) = insert_sorted-SortedFrom 0 x (sort xs) (omega arith) (sort-SortedFrom xs)

dedup_after-IncreasingFrom :
    (n : BotId) (xs : List BotId) → SortedFrom n xs → IncreasingFrom n (dedup_after n xs)
unfolding dedup_after
dedup_after-IncreasingFrom n [] s = tt
dedup_after-IncreasingFrom n (x ∷ xs) s = elim (Bool-cases (x == n)) [
  | inl q ↦
      rw (q, dedup_after)
        (subst (λ m. IncreasingFrom m (dedup_after x xs)) ((==_iff x n).0 q)
          (dedup_after-IncreasingFrom x xs s.1))
  | inr q ↦ rw (q, dedup_after) (ground arith, dedup_after-IncreasingFrom x xs s.1)
]

dedup-Increasing : (n : BotId) (xs : List BotId) → SortedFrom n xs → Increasing (dedup xs)
unfolding dedup
dedup-Increasing n [] s = tt
dedup-Increasing n (x ∷ xs) s = dedup_after-IncreasingFrom x xs s.1

-- The Bots listed as shown now are exactly those that count as shown, each once and in the order of
-- their identifiers.
pub shown_bots-is_shown :
    (now : ℕ) (p : Presence) (user : UserId)
    → ((b : BotId) → lists (shown_bots now p user) b ≡ is_shown now p user b)
      × Increasing (shown_bots now p user)
unfolding shown_bots is_shown
shown_bots-is_shown now p user =
    let ss = values (connections (get user p.shown)) in
    (
      λ b.
          lists-dedup (sort (bots_now now ss)) b
          ∙ lists-sort (bots_now now ss) b
          ∙ lists-bots_now now ss b,
      dedup-Increasing 0 (sort (bots_now now ss)) (sort-SortedFrom (bots_now now ss)),
    )
