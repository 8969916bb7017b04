-- ===== src/Schedule/Sorting.antt =====
-- What `sort_by_key` and `dedup_by_key` of crates/bokkie-gateway/src/routines/schedule.rs leave of
-- the candidates.
use bokkie.Prelude.{
  ◌<◌, ◌≡◌, ◌⊎◌, inl, inr, true, false, Bool-cases, List, [], ◌∷◌, arith, ◌==◌, All, Any, All-map,
  subst, sym,
}
use bokkie.Protocol.Routines.{Timestamp}
use bokkie.Schedule.{Candidate, before, sort_in, sort, dedup_after, dedup}

abbrev pub At : Timestamp → Candidate → Type 0
At a c = c.at ≡ a

abbrev pub Unmoved : Timestamp → Candidate → Type 0
Unmoved a c = (c.at ≡ a) × (c.moved ≡ false)

abbrev pub Sorted : List Candidate → Type 0
Sorted [] = Unit
Sorted (c ∷ cs) = All (λ d. before c d ≡ true) cs × Sorted cs

abbrev pub Strict : List Candidate → Type 0
Strict [] = Unit
Strict (c ∷ cs) = All (λ d. c.at < d.at) cs × Strict cs

module _ (P : Candidate → Type 0) where
  sort_in-All : (c : Candidate) (cs : List Candidate) → P c → All P cs → All P (sort_in c cs)
  unfolding sort_in
  sort_in-All c [] p h = (p, tt)
  sort_in-All c (d ∷ ds) p h = elim (Bool-cases (before c d)) [
    | inl q ↦ rw (q, sort_in) (p, h)
    | inr q ↦ rw (q, sort_in) (h.0, sort_in-All c ds p h.1)
  ]

  pub sort-All : (cs : List Candidate) → All P cs → All P (sort cs)
  unfolding sort
  sort-All [] h = tt
  sort-All (c ∷ cs) h = sort_in-All c (sort cs) h.0 (sort-All cs h.1)

  sort_in-Any : (c : Candidate) (cs : List Candidate) → P c ⊎ Any P cs → Any P (sort_in c cs)
  unfolding sort_in
  sort_in-Any c [] h = h
  sort_in-Any c (d ∷ ds) h = elim (Bool-cases (before c d)) [
    | inl q ↦ rw (q, sort_in) h
    | inr q ↦
        rw (q, sort_in)
          (elim h [
            | inl p ↦ inr (sort_in-Any c ds (inl p))
            | inr (inl p) ↦ inl p
            | inr (inr p) ↦ inr (sort_in-Any c ds (inr p))
          ])
  ]

  pub sort-Any : (cs : List Candidate) → Any P cs → Any P (sort cs)
  unfolding sort
  sort-Any [] h = h
  sort-Any (c ∷ cs) (inl p) = sort_in-Any c (sort cs) (inl p)
  sort-Any (c ∷ cs) (inr h) = sort_in-Any c (sort cs) (inr (sort-Any cs h))

  from_sort_in : (c : Candidate) (cs : List Candidate) → Any P (sort_in c cs) → P c ⊎ Any P cs
  unfolding sort_in
  from_sort_in c [] = λ h. h
  from_sort_in c (d ∷ ds) = elim (Bool-cases (before c d)) [
    | inl q ↦ rw (q, sort_in) λ h. h
    | inr q ↦
        rw (q, sort_in)
          λ h. elim h [
            | inl p ↦ inr (inl p)
            | inr r ↦ elim (from_sort_in c ds r) [ inl p ↦ inl p | inr p ↦ inr (inr p) ]
          ]
  ]

  pub from_sort : (cs : List Candidate) → Any P (sort cs) → Any P cs
  unfolding sort
  from_sort [] h = h
  from_sort (c ∷ cs) h = elim (from_sort_in c (sort cs) h) [
    | inl p ↦ inl p
    | inr p ↦ inr (from_sort cs p)
  ]

  from_sort_in-All : (c : Candidate) (cs : List Candidate) → All P (sort_in c cs) → P c × All P cs
  unfolding sort_in
  from_sort_in-All c [] = λ h. h
  from_sort_in-All c (d ∷ ds) = elim (Bool-cases (before c d)) [
    | inl q ↦ rw (q, sort_in) λ h. h
    | inr q ↦ rw (q, sort_in) λ h. let r = from_sort_in-All c ds h.1 in (r.0, (h.0, r.1))
  ]

  pub from_sort-All : (cs : List Candidate) → All P (sort cs) → All P cs
  unfolding sort
  from_sort-All [] h = tt
  from_sort-All (c ∷ cs) h = let r = from_sort_in-All c (sort cs) h in (r.0, from_sort-All cs r.1)

  dedup_after-All : (l : Candidate) (cs : List Candidate) → All P cs → All P (dedup_after l cs)
  unfolding dedup_after
  dedup_after-All l [] h = tt
  dedup_after-All l (c ∷ cs) h = elim (Bool-cases (c.at == l.at)) [
    | inl q ↦ rw (q, dedup_after) (dedup_after-All l cs h.1)
    | inr q ↦ rw (q, dedup_after) (h.0, dedup_after-All c cs h.1)
  ]

  pub dedup-All : (cs : List Candidate) → All P cs → All P (dedup cs)
  unfolding dedup
  dedup-All [] h = tt
  dedup-All (c ∷ cs) h = (h.0, dedup_after-All c cs h.1)

  from_dedup_after : (l : Candidate) (cs : List Candidate) → Any P (dedup_after l cs) → Any P cs
  unfolding dedup_after
  from_dedup_after l [] = λ h. h
  from_dedup_after l (c ∷ cs) = elim (Bool-cases (c.at == l.at)) [
    | inl q ↦ rw (q, dedup_after) λ h. inr (from_dedup_after l cs h)
    | inr q ↦
        rw (q, dedup_after) λ h. elim h [ inl p ↦ inl p | inr p ↦ inr (from_dedup_after c cs p) ]
  ]

  pub from_dedup : (cs : List Candidate) → Any P (dedup cs) → Any P cs
  unfolding dedup
  from_dedup [] h = h
  from_dedup (c ∷ cs) (inl p) = inl p
  from_dedup (c ∷ cs) (inr h) = inr (from_dedup_after c cs h)

module _ (Q : Timestamp → Type 0) where
  from_dedup_after-All :
      (l : Candidate) (cs : List Candidate)
      → Q l.at
      → All (λ c. Q c.at) (dedup_after l cs)
      → All (λ c. Q c.at) cs
  unfolding dedup_after
  from_dedup_after-All l [] p = λ h. h
  from_dedup_after-All l (c ∷ cs) p = elim (Bool-cases (c.at == l.at)) [
    | inl q ↦ rw (q, dedup_after) λ h. (subst Q (sym (level q)) p, from_dedup_after-All l cs p h)
    | inr q ↦ rw (q, dedup_after) λ h. (h.0, from_dedup_after-All c cs h.0 h.1)
  ]
    where
      level : (c.at == l.at) ≡ true → c.at ≡ l.at
      level q = ground arith

  pub from_dedup-All : (cs : List Candidate) → All (λ c. Q c.at) (dedup cs) → All (λ c. Q c.at) cs
  unfolding dedup
  from_dedup-All [] h = tt
  from_dedup-All (c ∷ cs) h = (h.0, from_dedup_after-All c cs h.0 h.1)

before_total : (c d : Candidate) → before c d ≡ false → before d c ≡ true
before_total c d h = ground arith

before_trans : (c d e : Candidate) → before c d ≡ true → before d e ≡ true → before c e ≡ true
before_trans c d e h i = ground arith

sort_in-Sorted : (c : Candidate) (cs : List Candidate) → Sorted cs → Sorted (sort_in c cs)
unfolding sort_in
sort_in-Sorted c [] h = (tt, tt)
sort_in-Sorted c (d ∷ ds) h = elim (Bool-cases (before c d)) [
  | inl q ↦ rw (q, sort_in) ((q, All-map _ _ (λ e. before_trans c d e q) ds h.0), h)
  | inr q ↦
      rw (q, sort_in)
        (
          sort_in-All (λ e. before d e ≡ true) c ds (before_total c d q) h.0,
          sort_in-Sorted c ds h.1,
        )
]

pub sort-Sorted : (cs : List Candidate) → Sorted (sort cs)
unfolding sort
sort-Sorted [] = tt
sort-Sorted (c ∷ cs) = sort_in-Sorted c (sort cs) (sort-Sorted cs)

-- After `l`, which sorts before all of them, only later instants are left.
dedup_after-Strict :
    (l : Candidate) (cs : List Candidate)
    → All (λ d. before l d ≡ true) cs
    → Sorted cs
    → All (λ d. l.at < d.at) (dedup_after l cs) × Strict (dedup_after l cs)
unfolding dedup_after
dedup_after-Strict l [] b s = (tt, tt)
dedup_after-Strict l (c ∷ cs) b s = elim (Bool-cases (c.at == l.at)) [
  | inl q ↦ rw (q, dedup_after) (dedup_after-Strict l cs b.1 s.1)
  | inr q ↦
      let less : l.at < c.at = ground (arith, b.0) in
      let rest = dedup_after-Strict c cs s.0 s.1 in
      rw (q, dedup_after)
        ((less, All-map _ _ (λ d (h : c.at < d.at). omega arith) (dedup_after c cs) rest.0), rest)
]

pub dedup-Strict : (cs : List Candidate) → Sorted cs → Strict (dedup cs)
unfolding dedup
dedup-Strict [] s = tt
dedup-Strict (c ∷ cs) s = dedup_after-Strict c cs s.0 s.1

dedup_after-At :
    (a : Timestamp) (l : Candidate) (cs : List Candidate)
    → Any (At a) cs
    → (l.at ≡ a) ⊎ Any (At a) (dedup_after l cs)
unfolding dedup_after
dedup_after-At a l [] h = absurd h
dedup_after-At a l (c ∷ cs) h = elim (Bool-cases (c.at == l.at)) [
  | inl q ↦
      rw (q, dedup_after) (elim h [ inl p ↦ inl (ground arith) | inr p ↦ dedup_after-At a l cs p ])
  | inr q ↦
      rw (q, dedup_after) (elim h [ inl p ↦ inr (inl p) | inr p ↦ inr (dedup_after-At a c cs p) ])
]

-- An instant that a candidate names is still named.
pub dedup-At : (a : Timestamp) (cs : List Candidate) → Any (At a) cs → Any (At a) (dedup cs)
unfolding dedup
dedup-At a [] h = h
dedup-At a (c ∷ cs) (inl p) = inl p
dedup-At a (c ∷ cs) (inr p) = dedup_after-At a c cs p

dedup_after-Unmoved :
    (a : Timestamp) (l : Candidate) (cs : List Candidate)
    → All (λ d. before l d ≡ true) cs
    → Sorted cs
    → Any (Unmoved a) cs
    → Unmoved a l ⊎ Any (Unmoved a) (dedup_after l cs)
unfolding dedup_after
dedup_after-Unmoved a l [] b s h = absurd h
dedup_after-Unmoved a l (c ∷ cs) b s h = elim (Bool-cases (c.at == l.at)) [
  | inl q ↦
      rw (q, dedup_after)
        (elim h [
          | inl p ↦ inl (ground (arith, b.0))
          | inr p ↦ dedup_after-Unmoved a l cs b.1 s.1 p
        ])
  | inr q ↦
      rw (q, dedup_after)
        (elim h [ inl p ↦ inr (inl p) | inr p ↦ inr (dedup_after-Unmoved a c cs s.0 s.1 p) ])
]

-- The one that stays is the unmoved one, if there is one.
pub dedup-Unmoved :
    (a : Timestamp) (cs : List Candidate)
    → Sorted cs
    → Any (Unmoved a) cs
    → Any (Unmoved a) (dedup cs)
unfolding dedup
dedup-Unmoved a [] s h = h
dedup-Unmoved a (c ∷ cs) s (inl p) = inl p
dedup-Unmoved a (c ∷ cs) s (inr p) = dedup_after-Unmoved a c cs s.0 s.1 p
