-- ===== src/Routines/Outcomes.antt =====
-- What a run of the routines' code keeps true of the tables, whatever becomes of it.
use bokkie.Prelude.{
  ◌≡◌, refl, sym, ap, subst, ◌∙◌, ◌⊎◌, inl, inr, Bool, true, false, Option, none, some, arith,
  if◌then◌else◌,
}
use bokkie.Routines.Rows.{
  Tables, Result, Failure, M, pure, fail, reads, require, batch, ok, err, ◌>>=◌,
}

pub Result-cases :
    {A : Type 0} (r : Result A) → ((a : A) × (r ≡ ok a)) ⊎ ((e : Failure) × (r ≡ err e))
Result-cases (ok a) = inl (a, refl)
Result-cases (err e) = inr (e, refl)

-- Run from `t`, the code leaves `P` true, and `Q` is true of what it returns.
pub record After (P : Tables → Type 0) {A : Type 0} (Q : A → Type 0) (m : M A) (t : Tables)
    : Type 0 where
  pub keeps : P (m t).1
  pub gives : (a : A) → (m t).0 ≡ ok a → Q a

abbrev pub AnyResult : {A : Type 0} → A → Type 0
AnyResult a = Unit

module _ (P : Tables → Type 0) where
  -- The code does so wherever `P` is true.
  abbrev pub Keeps : {A : Type 0} → (A → Type 0) → M A → Type 0
  Keeps Q m = (t : Tables) → P t → After P Q m t

module _ {P : Tables → Type 0} where
  pub pure-After :
      {A : Type 0} (Q : A → Type 0) (a : A) (t : Tables) → P t → Q a → After P Q (pure a) t
  unfolding pure
  pure-After Q a t p q = record { keeps = p; gives = λ b e. ground arith }

  pub fail-After :
      {A : Type 0} (Q : A → Type 0) (e : Failure) (t : Tables) → P t → After P Q (fail e) t
  unfolding fail
  fail-After Q e t p = record { keeps = p; gives = λ b h. absurd (ground arith) }

  -- Code that has the same result from `t` as other code from `u` keeps as much.
  pub equal-After :
      {A : Type 0} {Q : A → Type 0} (m n : M A) (t u : Tables)
      → m t ≡ n u
      → After P Q n u
      → After P Q m t
  equal-After m n t u e h = record {
    keeps = subst (λ o. P o.1) (sym e) h.keeps;
    gives = λ a i. h.gives a (sym (ap (λ o. o.0) e) ∙ i);
  }

  pub returns-After :
      {A : Type 0} {Q : A → Type 0} (m : M A) (t u : Tables) (a : A)
      → m t ≡ (ok a, u)
      → P u
      → Q a
      → After P Q m t
  unfolding pure
  returns-After m t u a e p q = equal-After m (pure a) t u e (pure-After _ a u p q)

  pub refuses-After :
      {A : Type 0} {Q : A → Type 0} (m : M A) (t u : Tables) (x : Failure)
      → m t ≡ (err x, u)
      → P u
      → After P Q m t
  unfolding fail
  refuses-After m t u x e p = equal-After m (fail x) t u e (fail-After _ x u p)

  pub bind-After :
      {A B : Type 0} {Q : A → Type 0} {R : B → Type 0} (m : M A) (f : A → M B) (t : Tables)
      → After P Q m t
      → ((a : A) (u : Tables) → P u → Q a → After P R (f a) u)
      → After P R (m >>= f) t
  unfolding ◌>>=◌ fail
  bind-After m f t h k = elim (Result-cases (m t).0) [
    | inl (a, e) ↦
        equal-After (m >>= f) (f a) t (m t).1 (rw (e, ◌>>=◌) refl)
          (k a (m t).1 h.keeps (h.gives a e))
    | inr (x, e) ↦
        equal-After (m >>= f) (fail x) t (m t).1 (rw (e, ◌>>=◌, fail) refl)
          (fail-After _ x (m t).1 h.keeps)
  ]

  pub reads-After :
      {A : Type 0} (Q : A → Type 0) (f : Tables → A) (t : Tables)
      → P t
      → Q (f t)
      → After P Q (reads f) t
  unfolding reads
  reads-After Q f t p q = record { keeps = p; gives = λ b e. ground arith }

  pub batch-After :
      {A : Type 0} {Q : A → Type 0} (m : M A) (t : Tables)
      → P t
      → After P Q m t
      → After P Q (batch m) t
  unfolding batch pure fail
  batch-After m t p h = elim (Result-cases (m t).0) [
    | inl (a, e) ↦
        equal-After (batch m) (pure a) t (m t).1 (rw (e, batch, pure) refl)
          (pure-After _ a (m t).1 h.keeps (h.gives a e))
    | inr (x, e) ↦
        equal-After (batch m) (fail x) t t (rw (e, batch, fail) refl) (fail-After _ x t p)
  ]

  pub if-After :
      {A : Type 0} {Q : A → Type 0} (b : Bool) (m n : M A) (t : Tables)
      → (b ≡ true → After P Q m t)
      → (b ≡ false → After P Q n t)
      → After P Q (if b then m else n) t
  if-After true m n t h k = h refl
  if-After false m n t h k = k refl

  pub require-After :
      {A : Type 0} (e : Failure) (o : Option A) (t : Tables)
      → P t
      → After P (λ a. o ≡ some a) (require e o) t
  unfolding require
  require-After e none t p = fail-After _ e t p
  require-After e (some a) t p = pure-After _ a t p refl

  pub bind-Keeps :
      {A B : Type 0} {Q : A → Type 0} {R : B → Type 0} {m : M A} {f : A → M B}
      → Keeps P Q m
      → ((a : A) → Q a → Keeps P R (f a))
      → Keeps P R (m >>= f)
  bind-Keeps h k t p = bind-After _ _ t (h t p) λ a u w q. k a q u w

  pub pure-Keeps : {A : Type 0} {Q : A → Type 0} (a : A) → Q a → Keeps P Q (pure a)
  pure-Keeps a q t p = pure-After _ a t p q

  pub reads-Keeps :
      {A : Type 0} {Q : A → Type 0} (f : Tables → A)
      → ((t : Tables) → P t → Q (f t))
      → Keeps P Q (reads f)
  reads-Keeps f h t p = reads-After _ f t p (h t p)

  pub batch-Keeps : {A : Type 0} {Q : A → Type 0} {m : M A} → Keeps P Q m → Keeps P Q (batch m)
  batch-Keeps h t p = batch-After _ t p (h t p)

  pub if-Keeps :
      {A : Type 0} {Q : A → Type 0} (b : Bool) {m n : M A}
      → (b ≡ true → Keeps P Q m)
      → (b ≡ false → Keeps P Q n)
      → Keeps P Q (if b then m else n)
  if-Keeps true h k = h refl
  if-Keeps false h k = k refl

  pub any_read-Keeps : {A : Type 0} (f : Tables → A) → Keeps P AnyResult (reads f)
  any_read-Keeps f t p = reads-After AnyResult f t p tt
