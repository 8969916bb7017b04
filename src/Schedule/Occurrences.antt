-- ===== src/Schedule/Occurrences.antt =====
-- Which instants `occurrences` of crates/bokkie-gateway/src/routines/schedule.rs keeps of its
-- candidates.
use bokkie.Prelude.{
  ◌+◌, ◌≤◌, ◌<◌, ◌≡◌, refl, ◌⊎◌, inl, inr, ◌↔◌, Bool, true, false, not, ◌&&◌, ◌||◌, Bool-cases,
  List, [], ◌∷◌, arith, All, Any, All-map, subst, sym,
}
use bokkie.Protocol.Routines.{Schedule, Timestamp}
use bokkie.Schedule.{
  Zone, Date, Candidate, hour_ms, all_far, keep, sort, dedup, candidates, occurrences,
}
use bokkie.Schedule.Sorting.{
  At, Unmoved, Strict, sort-All, sort-Any, from_sort, from_sort-All, from_dedup-All, dedup-All,
  from_dedup, sort-Sorted, dedup-Strict, dedup-At, dedup-Unmoved,
}

-- Every candidate is at `a` or at least an hour from it.
abbrev pub Apart : Timestamp → Candidate → Type 0
Apart a c = (c.at ≡ a) ⊎ ((c.at + hour_ms ≤ a) ⊎ (a + hour_ms ≤ c.at))

-- Whether `a` is to be kept of some candidates, in any order: one is at `a`, and either one at `a`
-- is where the schedule says, or the others are an hour away.
abbrev pub Kept : Timestamp → List Candidate → Type 0
Kept a cs = Any (Unmoved a) cs ⊎ (Any (At a) cs × All (Apart a) cs)

abbrev pub Rising : List Timestamp → Type 0
Rising [] = Unit
Rising (a ∷ more) = All (λ b. a < b) more × Rising more

all_far-Apart : (a : Timestamp) (cs : List Candidate) → all_far a cs ≡ true → All (Apart a) cs
unfolding all_far
all_far-Apart a [] h = tt
all_far-Apart a (c ∷ cs) h = (ground arith, all_far-Apart a cs (ground arith))

Apart-all_far :
    (a : Timestamp) (cs : List Candidate)
    → All (λ c. (c.at < a) ⊎ (a < c.at)) cs
    → All (Apart a) cs
    → all_far a cs ≡ true
unfolding all_far
Apart-all_far a [] o h = refl
Apart-all_far a (c ∷ cs) o h = ground (arith, Apart-all_far a cs o.1 h.1, o.0, h.0)

-- `Kept`, where the others are of two lists, and the one kept is of the second.
abbrev Found : Timestamp → (passed cs : List Candidate) → Type 0
Found a passed cs = Any (Unmoved a) cs ⊎ (Any (At a) cs × All (Apart a) passed × All (Apart a) cs)

abbrev chosen : List Candidate → Candidate → List Candidate → Bool
chosen passed c cs = not c.moved || (all_far c.at passed && all_far c.at cs)

chosen-Found :
    (a : Timestamp) (passed : List Candidate) (c : Candidate) (cs : List Candidate)
    → chosen passed c cs ≡ true
    → c.at ≡ a
    → Found a passed (c ∷ cs)
chosen-Found a passed c cs q e = elim (Bool-cases c.moved) [
  | inl m ↦
      let p : all_far c.at passed ≡ true = ground arith in
      let r : all_far c.at cs ≡ true = ground arith in
      inr (
        inl e,
        subst (λ b. All (Apart b) passed) e (all_far-Apart c.at passed p),
        (inl e, subst (λ b. All (Apart b) cs) e (all_far-Apart c.at cs r)),
      )
  | inr m ↦ inl (inl (e, m))
]

Found-later :
    (a : Timestamp) (passed : List Candidate) (c : Candidate) (cs : List Candidate)
    → Found a (c ∷ passed) cs
    → Found a passed (c ∷ cs)
Found-later a passed c cs (inl u) = inl (inr u)
Found-later a passed c cs (inr (x, (p, ps), o)) = inr (inr x, ps, (p, o))

keep-Found :
    (a : Timestamp) (passed cs : List Candidate)
    → Any (λ b. b ≡ a) (keep passed cs)
    → Found a passed cs
unfolding keep
keep-Found a passed [] = λ h. inl h
keep-Found a passed (c ∷ cs) = elim (Bool-cases (chosen passed c cs)) [
  | inl q ↦
      rw (q, keep)
        λ h. elim h [
          | inl e ↦ chosen-Found a passed c cs q e
          | inr r ↦ Found-later a passed c cs (keep-Found a (c ∷ passed) cs r)
        ]
  | inr q ↦ rw (q, keep) λ h. Found-later a passed c cs (keep-Found a (c ∷ passed) cs h)
]

-- All of `passed` lie before all of the list, which is strict.
abbrev pub After : List Candidate → List Candidate → Type 0
After passed cs = All (λ c. All (λ p. p.at < c.at) passed) cs

After-next :
    (passed : List Candidate) (c : Candidate) (cs : List Candidate)
    → After passed cs
    → All (λ d. c.at < d.at) cs
    → After (c ∷ passed) cs
After-next passed c [] h s = tt
After-next passed c (d ∷ ds) h s = ((s.0, h.0), After-next passed c ds h.1 s.1)

-- A candidate passed over that another at its instant could stand for has none there.
passed_over :
    (a : Timestamp) (passed : List Candidate) (c : Candidate) (cs : List Candidate)
    → All (λ p. p.at < c.at) passed
    → All (λ d. c.at < d.at) cs
    → chosen passed c cs ≡ false
    → Found a passed (c ∷ cs)
    → Found a (c ∷ passed) cs
passed_over a passed c cs f s q (inl (inl u)) = absurd (ground arith)
passed_over a passed c cs f s q (inl (inr u)) = inl u
passed_over a passed c cs f s q (inr (inr x, ps, (p, o))) = inr (x, (p, ps), o)
passed_over a passed c cs f s q (inr (inl e, ps, (p, o))) =
    let l : all_far c.at passed ≡ true =
      Apart-all_far c.at passed (All-map _ _ (λ d (l : d.at < c.at). inl l) passed f)
        (subst (λ b. All (Apart b) passed) (sym e) ps) in
    let r : all_far c.at cs ≡ true =
      Apart-all_far c.at cs (All-map _ _ (λ d (l : c.at < d.at). inr l) cs s)
        (subst (λ b. All (Apart b) cs) (sym e) o) in
    absurd (ground arith)

taken :
    (a : Timestamp) (passed : List Candidate) (c : Candidate) (cs : List Candidate)
    → Found a passed (c ∷ cs)
    → (c.at ≡ a) ⊎ Found a (c ∷ passed) cs
taken a passed c cs (inl (inl u)) = inl u.0
taken a passed c cs (inl (inr u)) = inr (inl u)
taken a passed c cs (inr (inl e, p, o)) = inl e
taken a passed c cs (inr (inr x, ps, (p, o))) = inr (inr (x, (p, ps), o))

Found-keep :
    (a : Timestamp) (passed cs : List Candidate)
    → After passed cs
    → Strict cs
    → Found a passed cs
    → Any (λ b. b ≡ a) (keep passed cs)
unfolding keep
Found-keep a passed [] f s (inl u) = u
Found-keep a passed [] f s (inr (x, p, o)) = x
Found-keep a passed (c ∷ cs) f s h = elim (Bool-cases (chosen passed c cs)) [
  | inl q ↦
      rw (q, keep)
        (elim (taken a passed c cs h) [
          | inl e ↦ inl e
          | inr r ↦ inr (Found-keep a (c ∷ passed) cs (After-next passed c cs f.1 s.0) s.1 r)
        ])
  | inr q ↦
      rw (q, keep)
        (Found-keep a (c ∷ passed) cs (After-next passed c cs f.1 s.0) s.1
          (passed_over a passed c cs f.0 s.0 q h))
]

keep-above :
    (a : Timestamp) (passed cs : List Candidate)
    → All (λ c. a < c.at) cs
    → All (λ b. a < b) (keep passed cs)
unfolding keep
keep-above a passed [] h = tt
keep-above a passed (c ∷ cs) h = elim (Bool-cases (chosen passed c cs)) [
  | inl q ↦ rw (q, keep) (h.0, keep-above a (c ∷ passed) cs h.1)
  | inr q ↦ rw (q, keep) (keep-above a (c ∷ passed) cs h.1)
]

keep-Rising : (passed cs : List Candidate) → Strict cs → Rising (keep passed cs)
unfolding keep
keep-Rising passed [] s = tt
keep-Rising passed (c ∷ cs) s = elim (Bool-cases (chosen passed c cs)) [
  | inl q ↦ rw (q, keep) (keep-above c.at (c ∷ passed) cs s.0, keep-Rising (c ∷ passed) cs s.1)
  | inr q ↦ rw (q, keep) (keep-Rising (c ∷ passed) cs s.1)
]

After-none : (cs : List Candidate) → After [] cs
After-none [] = tt
After-none (c ∷ cs) = (tt, After-none cs)

-- The times that `occurrences` gives increase strictly.
pub occurrences-Rising :
    (z : Zone) (s : Schedule) (from to : Date) → Rising (occurrences z s from to)
unfolding occurrences
occurrences-Rising z s from to =
    let cs = candidates z s from to in
    keep-Rising [] (dedup (sort cs)) (dedup-Strict (sort cs) (sort-Sorted cs))

-- An instant is among the occurrences of some dates exactly if a candidate of theirs is at it, and
-- one at it was not moved by a gap, or else every candidate that is not at it is at least an hour
-- away. So sorting and removing repeats change nothing, and of the occurrences only a moved one is
-- kept an hour from the others.
pub occurrences-Kept :
    (z : Zone) (s : Schedule) (from to : Date) (a : Timestamp)
    → Any (λ b. b ≡ a) (occurrences z s from to) ↔ Kept a (candidates z s from to)
unfolding occurrences
occurrences-Kept z s from to a = (forth, back)
  where
    cs : List Candidate
    cs = candidates z s from to

    forth : Any (λ b. b ≡ a) (keep [] (dedup (sort cs))) → Kept a cs
    forth h = elim (keep-Found a [] (dedup (sort cs)) h) [
      | inl u ↦ inl (from_sort _ cs (from_dedup _ (sort cs) u))
      | inr (x, p, o) ↦ inr (
        from_sort _ cs (from_dedup _ (sort cs) x),
        from_sort-All _ cs
            (from_dedup-All (λ b. (b ≡ a) ⊎ ((b + hour_ms ≤ a) ⊎ (a + hour_ms ≤ b))) (sort cs) o),
      )
    ]

    back : Kept a cs → Any (λ b. b ≡ a) (keep [] (dedup (sort cs)))
    back h =
        Found-keep a [] (dedup (sort cs)) (After-none _) (dedup-Strict (sort cs) (sort-Sorted cs))
          (elim h [
            | inl u ↦ inl (dedup-Unmoved a (sort cs) (sort-Sorted cs) (sort-Any _ cs u))
            | inr (x, o) ↦ inr (
              dedup-At a (sort cs) (sort-Any _ cs x),
              tt,
              dedup-All _ (sort cs) (sort-All _ cs o),
            )
          ])
