-- ===== src/Schedule/Next.antt =====
-- What `next_after` and `latest_at_or_before` of crates/bokkie-gateway/src/routines/schedule.rs
-- find.
use mathlib.Core.List.{reverse, reverse-cons}
use bokkie.Prelude.{
  ◌≤◌, ◌<◌, ◌≡◌, refl, inl, inr, Bool-cases, Option, none, some, List, [], ◌∷◌, ◌++◌, arith, leb,
  ltb, Any, All-at, if◌then◌else◌,
}
use bokkie.Protocol.Routines.{Schedule, Timestamp}
use bokkie.Schedule.{
  Zone, Date, candidates, occurrences, first_after, first_up_to, next_after, latest_at_or_before,
  earlier, later,
}
use bokkie.Schedule.Occurrences.{Kept, Rising, occurrences-Rising, occurrences-Kept}

-- The first of some instants after `t`, or that there is none.
abbrev pub IsFirst : (Occurs : Timestamp → Type 0) → Timestamp → Option Timestamp → Type 0
IsFirst Occurs t none = (b : Timestamp) → Occurs b → b ≤ t
IsFirst Occurs t (some a) = Occurs a × (t < a) × ((b : Timestamp) → Occurs b → t < b → a ≤ b)

-- The last of some instants up to `t`, or that there is none.
abbrev pub IsLatest : (Occurs : Timestamp → Type 0) → Timestamp → Option Timestamp → Type 0
IsLatest Occurs t none = (b : Timestamp) → Occurs b → t < b
IsLatest Occurs t (some a) = Occurs a × (a ≤ t) × ((b : Timestamp) → Occurs b → b ≤ t → b ≤ a)

abbrev In : List Timestamp → Timestamp → Type 0
In as' b = Any (λ a. a ≡ b) as'

first_after-IsFirst :
    (t : Timestamp) (l : List Timestamp) → Rising l → IsFirst (In l) t (first_after t l)
unfolding first_after
first_after-IsFirst t [] r = λ b h. absurd h
first_after-IsFirst t (a ∷ l) r = elim (Bool-cases (ltb t a)) [
  | inl q ↦
      rw (q, first_after)
        (
          inl refl,
          ground arith,
          λ b h i. elim h [
            | inl e ↦ omega arith
            | inr h ↦ All-at _ _ (a ≤ b) (λ c (e : c ≡ b) (k : a < c). omega arith) l h r.0
          ],
        )
  | inr q ↦
      let le : a ≤ t = ground arith in
      rw (q, first_after) (widen le (first_after t l) (first_after-IsFirst t l r.1))
]
  where
    widen : a ≤ t → (o : Option Timestamp) → IsFirst (In l) t o → IsFirst (In (a ∷ l)) t o
    widen le none h = λ b i. elim i [ inl e ↦ omega arith | inr i ↦ h b i ]
    widen le (some c) h =
        (inr h.0, h.1, λ b i k. elim i [ inl e ↦ absurd (omega arith) | inr i ↦ h.2 b i k ])

first_up_to-append :
    (t a : Timestamp) (l : List Timestamp)
    → first_up_to t (l ++ a ∷ [])
      ≡ elim (first_up_to t l) [ none ↦ if leb a t then some a else none | some b ↦ some b ]
unfolding first_up_to
first_up_to-append t a [] = refl
first_up_to-append t a (b ∷ l) = ground (arith, first_up_to-append t a l)

first_up_to-IsLatest :
    (t : Timestamp) (l : List Timestamp) → Rising l → IsLatest (In l) t (first_up_to t (reverse l))
unfolding first_up_to
first_up_to-IsLatest t [] r = λ b h. absurd h
first_up_to-IsLatest t (a ∷ l) r =
    rw (reverse-cons a l, first_up_to-append t a (reverse l))
      (extend (first_up_to t (reverse l)) (first_up_to-IsLatest t l r.1))
  where
    extend :
        (o : Option Timestamp)
        → IsLatest (In l) t o
        → IsLatest
            (In (a ∷ l))
            t
            (elim o [ none ↦ if leb a t then some a else none | some b ↦ some b ])
    extend none h = elim (Bool-cases (leb a t)) [
      | inl q ↦ rw q (
        inl refl,
        ground arith,
        λ b i k. elim i [ inl e ↦ omega arith | inr i ↦ absurd (let f = h b i in omega arith) ],
      )
      | inr q ↦ rw q λ b i. elim i [ inl e ↦ ground arith | inr i ↦ h b i ]
    ]
    extend (some c) h = (
      inr h.0,
      h.1,
      λ b i k. elim i [
        | inl e ↦ All-at _ _ (b ≤ c) (λ d (f : d ≡ c) (g : a < d). omega arith) l h.0 r.0
        | inr i ↦ h.2 b i k
      ],
    )

module _ (z : Zone) (s : Schedule) (t : Timestamp) (today : Date)
    (known : z.local_date t ≡ some today) where
  next_after-IsFirst :
      IsFirst
        (λ a. Kept a (candidates z s (earlier today 1) (later z today 8)))
        t
        (next_after z s t)
  unfolding next_after
  next_after-IsFirst =
      let from = earlier today 1 in
      let to = later z today 8 in
      rw (known, next_after)
        (first_kept from to (first_after t (occurrences z s from to))
          (first_after-IsFirst t (occurrences z s from to) (occurrences-Rising z s from to)))
    where
      first_kept :
          (from to : Date) (o : Option Timestamp)
          → IsFirst (In (occurrences z s from to)) t o
          → IsFirst (λ a. Kept a (candidates z s from to)) t o
      first_kept from to none h = λ b i. h b ((occurrences-Kept z s from to b).1 i)
      first_kept from to (some a) h = (
        (occurrences-Kept z s from to a).0 h.0,
        h.1,
        λ b i k. h.2 b ((occurrences-Kept z s from to b).1 i) k,
      )

  latest_at_or_before-IsLatest :
      IsLatest
        (λ a. Kept a (candidates z s (earlier today 8) (later z today 1)))
        t
        (latest_at_or_before z s t)
  unfolding latest_at_or_before
  latest_at_or_before-IsLatest =
      let from = earlier today 8 in
      let to = later z today 1 in
      rw (known, latest_at_or_before)
        (latest_kept from to (first_up_to t (reverse (occurrences z s from to)))
          (first_up_to-IsLatest t (occurrences z s from to) (occurrences-Rising z s from to)))
    where
      latest_kept :
          (from to : Date) (o : Option Timestamp)
          → IsLatest (In (occurrences z s from to)) t o
          → IsLatest (λ a. Kept a (candidates z s from to)) t o
      latest_kept from to none h = λ b i. h b ((occurrences-Kept z s from to b).1 i)
      latest_kept from to (some a) h = (
        (occurrences-Kept z s from to a).0 h.0,
        h.1,
        λ b i k. h.2 b ((occurrences-Kept z s from to b).1 i) k,
      )

-- Let `jiff` know the local date of `t`. `next_after` gives the first instant after `t` that is to be
-- kept of the candidates from the day before that date to the eighth after it, and
-- `latest_at_or_before` the last instant up to `t` that is to be kept of the candidates from the
-- eighth day before it to the day after it; each gives nothing exactly if there is none. Which
-- instants are to be kept is said of the candidates in any order, by `Kept`.
pub next_after-latest_at_or_before :
    (z : Zone) (s : Schedule) (t : Timestamp) (today : Date)
    → z.local_date t ≡ some today
    → IsFirst
        (λ a. Kept a (candidates z s (earlier today 1) (later z today 8)))
        t
        (next_after z s t)
      × IsLatest
          (λ a. Kept a (candidates z s (earlier today 8) (later z today 1)))
          t
          (latest_at_or_before z s t)
next_after-latest_at_or_before z s t today known =
    (next_after-IsFirst z s t today known, latest_at_or_before-IsLatest z s t today known)
