-- ===== src/Maps.antt =====
-- `BTreeMap` and `HashMap`, keyed by row identifiers: entries in the order of their keys. Nothing
-- that the model computes depends on the order that a `HashMap` has.
use bokkie.Prelude.{
  ◌<◌, ◌≤◌, ◌⊎◌, inl, inr, Bool-cases, subst, ℕ, ◌≡◌, refl, Bool, true, false, Option, none, some,
  List, [], ◌∷◌, ltb, ◌==◌, if◌then◌else◌, arith, ==_iff,
}

abbrev pub Map {ℓ} : Type ℓ → Type ℓ
Map V = List (ℕ × V)

-- Where a key stands to another, as `insert` tests it.
key_cases :
    (k j : ℕ)
    → ((j ≡ k) × ((j == k) ≡ true))
      ⊎ (((k < j) × ((j == k) ≡ false) × (ltb k j ≡ true))
          ⊎ ((j < k) × ((j == k) ≡ false) × (ltb k j ≡ false)))
key_cases k j = ground arith

module _ {ℓ} {V : Type ℓ} where
  unfoldable pub get : ℕ → Map V → Option V
  get k [] = none
  get k ((j, v) ∷ m) = let rest = get k m in if j == k then some v else rest

  unfoldable pub insert : ℕ → V → Map V → Map V
  insert k v [] = (k, v) ∷ []
  insert k v ((j, w) ∷ m) =
      let rest = insert k v m in
      if j == k then (k, v) ∷ m else (if ltb k j then (k, v) ∷ (j, w) ∷ m else (j, w) ∷ rest)

  unfoldable pub remove : ℕ → Map V → Map V
  remove k [] = []
  remove k ((j, w) ∷ m) = let rest = remove k m in if j == k then rest else (j, w) ∷ rest

  unfoldable pub has_key : ℕ → Map V → Bool
  unfolding get
  has_key k m = elim (get k m) [ none ↦ false | some _ ↦ true ]

  -- `BTreeMap::retain`.
  unfoldable pub retain : (ℕ → V → Bool) → Map V → Map V
  retain p [] = []
  retain p ((j, w) ∷ m) = let rest = retain p m in if p j w then (j, w) ∷ rest else rest

  -- `BTreeMap::extend`: a later entry replaces an earlier one.
  unfoldable pub extend : List (ℕ × V) → Map V → Map V
  unfolding insert
  extend [] m = m
  extend ((k, v) ∷ es) m = extend es (insert k v m)

  unfoldable pub keys : Map V → List ℕ
  keys [] = []
  keys ((k, v) ∷ m) = k ∷ keys m

  unfoldable pub values : Map V → List V
  values [] = []
  values ((k, v) ∷ m) = v ∷ values m

  pub get-insert :
      (k j : ℕ) (v : V) (m : Map V) → get j (insert k v m) ≡ (if k == j then some v else get j m)
  unfolding get insert
  get-insert k j v [] = refl
  get-insert k j v ((i, w) ∷ m) = ground (arith, get-insert k j v m)

  pub get-remove : (k j : ℕ) (m : Map V) → get j (remove k m) ≡ (if k == j then none else get j m)
  unfolding get remove
  get-remove k j [] = ground arith
  get-remove k j ((i, w) ∷ m) = ground (arith, get-remove k j m)

  -- The keys increase strictly, from above a first one on.
  abbrev pub Above : ℕ → Map V → Type 0
  Above n [] = Unit
  Above n ((k, v) ∷ m) = (n < k) × Above k m

  abbrev pub Ascending : Map V → Type 0
  Ascending [] = Unit
  Ascending ((k, v) ∷ m) = Above k m

  Above-less : (n k : ℕ) (m : Map V) → n < k → Above k m → Above n m
  Above-less n k [] h a = tt
  Above-less n k ((j, w) ∷ m) h a = (omega (arith, a.0), a.1)

  insert-Above : (n k : ℕ) (v : V) (m : Map V) → n < k → Above n m → Above n (insert k v m)
  unfolding insert
  insert-Above n k v [] h a = (h, tt)
  insert-Above n k v ((j, w) ∷ m) h a = elim (key_cases k j) [
    | inl same ↦ rw (same.1, insert) (h, subst (λ i. Above i m) same.0 a.1)
    | inr (inl before) ↦ rw (before.1, before.2, insert) (h, (before.0, a.1))
    | inr (inr after) ↦ rw (after.1, after.2, insert) (a.0, insert-Above j k v m after.0 a.1)
  ]

  pub insert-Ascending : (k : ℕ) (v : V) (m : Map V) → Ascending m → Ascending (insert k v m)
  unfolding insert
  insert-Ascending k v [] a = tt
  insert-Ascending k v ((j, w) ∷ m) a = elim (key_cases k j) [
    | inl same ↦ rw (same.1, insert) (subst (λ i. Above i m) same.0 a)
    | inr (inl before) ↦ rw (before.1, before.2, insert) (before.0, a)
    | inr (inr after) ↦ rw (after.1, after.2, insert) (insert-Above j k v m after.0 a)
  ]

  remove-Above : (n k : ℕ) (m : Map V) → Above n m → Above n (remove k m)
  unfolding remove
  remove-Above n k [] a = tt
  remove-Above n k ((j, w) ∷ m) a = elim (Bool-cases (j == k)) [
    | inl q ↦ rw (q, remove) (Above-less n j (remove k m) a.0 (remove-Above j k m a.1))
    | inr q ↦ rw (q, remove) (a.0, remove-Above j k m a.1)
  ]

  pub Above-Ascending : (n : ℕ) (m : Map V) → Above n m → Ascending m
  Above-Ascending n [] a = tt
  Above-Ascending n ((j, w) ∷ m) a = a.1

  pub remove-Ascending : (k : ℕ) (m : Map V) → Ascending m → Ascending (remove k m)
  unfolding remove
  remove-Ascending k [] a = tt
  remove-Ascending k ((j, w) ∷ m) a = elim (Bool-cases (j == k)) [
    | inl q ↦ rw (q, remove) (Above-Ascending j (remove k m) (remove-Above j k m a))
    | inr q ↦ rw (q, remove) (remove-Above j k m a)
  ]

  pub get-Above : (n k : ℕ) (m : Map V) → Above n m → k ≤ n → get k m ≡ none
  unfolding get
  get-Above n k [] a h = refl
  get-Above n k ((j, w) ∷ m) a h = ground (arith, get-Above j k m a.1 (omega (arith, a.0)))

  pub retain-Above : (p : ℕ → V → Bool) (n : ℕ) (m : Map V) → Above n m → Above n (retain p m)
  unfolding retain
  retain-Above p n [] a = tt
  retain-Above p n ((j, w) ∷ m) a = elim (Bool-cases (p j w)) [
    | inl q ↦ rw (q, retain) (a.0, retain-Above p j m a.1)
    | inr q ↦ rw (q, retain) (Above-less n j (retain p m) a.0 (retain-Above p j m a.1))
  ]

  pub retain-Ascending : (p : ℕ → V → Bool) (m : Map V) → Ascending m → Ascending (retain p m)
  unfolding retain
  retain-Ascending p [] a = tt
  retain-Ascending p ((j, w) ∷ m) a = elim (Bool-cases (p j w)) [
    | inl q ↦ rw (q, retain) (retain-Above p j m a)
    | inr q ↦ rw (q, retain) (Above-Ascending j (retain p m) (retain-Above p j m a))
  ]

  -- The entries that pass are retained.
  pub get-retain :
      (p : ℕ → V → Bool) (k : ℕ) (m : Map V)
      → Ascending m
      → get k (retain p m)
        ≡ elim (get k m) [ none ↦ none | some v ↦ if p k v then some v else none ]
  unfolding get retain
  get-retain p k [] a = refl
  get-retain p k ((j, w) ∷ m) a = elim (Bool-cases (j == k)) [
    | inl e ↦
        let same : j ≡ k = (==_iff j k).0 e in
        let gone : get k (retain p m) ≡ none =
          get-Above j k (retain p m) (retain-Above p j m a) (omega arith) in
        elim (Bool-cases (p j w)) [
          | inl q ↦
              let r : p k w ≡ true = subst (λ i. p i w ≡ true) same q in
              rw (e, q, retain, get, e, r) refl
          | inr q ↦
              let r : p k w ≡ false = subst (λ i. p i w ≡ false) same q in
              rw (e, q, retain, get, r, gone) refl
        ]
    | inr e ↦
        let rest = get-retain p k m (Above-Ascending j m a) in
        elim (Bool-cases (p j w)) [
          | inl q ↦ rw (e, q, retain, get, e) rest
          | inr q ↦ rw (e, q, retain, get) rest
        ]
  ]
