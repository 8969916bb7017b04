-- ===== src/Routines/Writes.antt =====
-- Each kind of write of crates/bokkie-gateway/src/routines/store.rs keeps the tables sound.
use bokkie.Prelude.{
  ℕ, ◌≤◌, ◌≡◌, refl, sym, subst, ◌∙◌, ◌⊎◌, inl, inr, Bool, true, false, Bool-cases, none, some,
  Option-cases, [], ◌∷◌, arith, ◌==◌, ==_iff,
}
use bokkie.Maps.{
  Map, get, insert, remove, retain, get-insert, get-remove, get-retain, insert-Ascending, Ascending,
}
use bokkie.Protocol.Routines.{RoutineRunId}
use bokkie.Routines.Rows.{RoutineRow, RunRow, Tables}
use bokkie.Routines.Lookups.{fresh, is_active, is_finished}
use bokkie.Routines.Changes.{with_run}
use bokkie.Routines.Sound.{RunSound, Sound, RunStep, Follows, RunStep-Follows}

module _ {V : Type 0} where
  -- What is found after a write is what was written or was found before.
  pub get-written :
      (k j : ℕ) (v w : V) (m : Map V)
      → get j (insert k v m) ≡ some w
      → ((k ≡ j) × (v ≡ w)) ⊎ (((k == j) ≡ false) × (get j m ≡ some w))
  get-written k j v w m h = elim (Bool-cases (k == j)) [
    | inl e ↦ inl ((==_iff k j).0 e, found e)
    | inr e ↦ inr (e, sym (other e) ∙ h)
  ]
    where
      found : (k == j) ≡ true → v ≡ w
      found e = let f : some v ≡ some w = sym (get-insert k j v m ∙ rw e refl) ∙ h in cc f

      other : (k == j) ≡ false → get j (insert k v m) ≡ get j m
      other e = get-insert k j v m ∙ rw e refl

  -- A key at least `fresh` is not there.
  above_fresh : (k : ℕ) (m : Map V) → fresh m ≤ k → get k m ≡ none
  unfolding fresh get
  above_fresh k [] h = refl
  above_fresh k ((j, v) ∷ m) h =
      let e : (j == k) ≡ false = ground arith in rw (e, get) (above_fresh k m (omega arith))

  pub get-fresh : (m : Map V) → get (fresh m) m ≡ none
  get-fresh m = above_fresh (fresh m) m (omega arith)

  pub get-removed :
      (k j : ℕ) (w : V) (m : Map V)
      → get j (remove k m) ≡ some w
      → ((k == j) ≡ false) × (get j m ≡ some w)
  get-removed k j w m h = elim (Bool-cases (k == j)) [
    | inl e ↦ let f : get j (remove k m) ≡ none = get-remove k j m ∙ rw e refl in cc (f, h)
    | inr e ↦ (e, let f : get j (remove k m) ≡ get j m = get-remove k j m ∙ rw e refl in sym f ∙ h)
  ]

  pub get-retained :
      (p : ℕ → V → Bool) (k : ℕ) (v : V) (m : Map V)
      → Ascending m
      → get k (retain p m) ≡ some v
      → (get k m ≡ some v) × (p k v ≡ true)
  get-retained p k v m a h =
      let e = get-retain p k m a in
      elim (Option-cases (get k m)) [
        | inl n ↦ let f : get k (retain p m) ≡ none = e ∙ rw n refl in cc (f, h)
        | inr (w, g) ↦ elim (Bool-cases (p k w)) [
          | inl q ↦
              let f : get k (retain p m) ≡ some w = e ∙ rw (g, q) refl in
              let d : some w ≡ some v = sym f ∙ h in
              let c : w ≡ v = cc d in (g ∙ d, subst (λ x. p k x ≡ true) c q)
          | inr q ↦ let f : get k (retain p m) ≡ none = e ∙ rw (g, q) refl in cc (f, h)
        ]
      ]

pub step-Sound :
    (t : Tables) (id : RoutineRunId) (r s : RunRow)
    → Sound t
    → get id t.runs ≡ some r
    → RunStep r s
    → Sound (with_run id s t)
step-Sound t id r s v g step = record {
  routines_ascend = v.routines_ascend;
  runs_ascend = insert-Ascending id s t.runs v.runs_ascend;
  routine_sound = v.routine_sound;
  run_sound = λ i x h. elim (get-written id i s x t.runs h) [
    | inl (e, f) ↦
        subst (λ y. (y.id ≡ i) × RunSound y) f
          (follows.id ∙ (v.run_sound id r g).0 ∙ e, follows.sound (v.run_sound id r g).1)
    | inr (e, h) ↦ v.run_sound i x h
  ];
  owned = λ i x h. elim (get-written id i s x t.runs h) [
    | inl (e, f) ↦ subst Owned f owned_after
    | inr (e, h) ↦ v.owned i x h
  ];
  single = λ i j x y h k e a b. elim (get-written id i s x t.runs h) [
    | inl (f, p) ↦ elim (get-written id j s y t.runs k) [
      | inl (g, q) ↦ sym f ∙ g
      | inr (n, k) ↦
          sym f ∙ v.single id j r y g k (sym follows.routine ∙ cc (p, e)) follows.active b
    ]
    | inr (n, h) ↦ elim (get-written id j s y t.runs k) [
      | inl (f, q) ↦ v.single i id x r h g (e ∙ cc (q, follows.routine)) a follows.active ∙ f
      | inr (m, k) ↦ v.single i j x y h k e a b
    ]
  ];
}
  where
    follows : Follows r s
    follows = RunStep-Follows r s step

    Owned : RunRow → Type 0
    Owned y =
        (q : RoutineRow) × (get y.routine t.routines ≡ some q) × (q.user ≡ y.user) × (q.bot ≡ y.bot)

    owned_after : Owned s
    owned_after =
        let o = v.owned id r g in
        (
          o.0,
          subst (λ x. get x t.routines ≡ some o.0) (sym follows.routine) o.1,
          o.2 ∙ sym follows.user,
          o.3 ∙ sym follows.bot,
        )

-- A new run of a routine that is there, which has no other that is active if this one is.
pub insert-Sound :
    (t : Tables) (r : RunRow) (q : RoutineRow)
    → Sound t
    → r.id ≡ fresh t.runs
    → RunSound r
    → get r.routine t.routines ≡ some q
    → q.user ≡ r.user
    → q.bot ≡ r.bot
    → (is_finished r.state ≡ true)
      ⊎ ((i : RoutineRunId) (x : RunRow)
          → get i t.runs ≡ some x
          → x.routine ≡ r.routine
          → is_active x.state ≡ false)
    → Sound (with_run (fresh t.runs) r t)
unfolding is_active
insert-Sound t r q v n ok there user bot alone = record {
  routines_ascend = v.routines_ascend;
  runs_ascend = insert-Ascending (fresh t.runs) r t.runs v.runs_ascend;
  routine_sound = v.routine_sound;
  run_sound = λ i x h. elim (get-written (fresh t.runs) i r x t.runs h) [
    | inl (e, f) ↦ subst (λ y. (y.id ≡ i) × RunSound y) f (n ∙ e, ok)
    | inr (e, h) ↦ v.run_sound i x h
  ];
  owned = λ i x h. elim (get-written (fresh t.runs) i r x t.runs h) [
    | inl (e, f) ↦ subst Owned f (q, there, user, bot)
    | inr (e, h) ↦ v.owned i x h
  ];
  single = λ i j x y h k e a b. elim (get-written (fresh t.runs) i r x t.runs h) [
    | inl (f, p) ↦ elim (get-written (fresh t.runs) j r y t.runs k) [
      | inl (g, q) ↦ sym f ∙ g
      | inr (m, k) ↦
          absurd (other j y k (cc (p, e)) b (subst (λ z. is_active z.state ≡ true) (sym p) a))
    ]
    | inr (m, h) ↦ elim (get-written (fresh t.runs) j r y t.runs k) [
      | inl (f, p) ↦
          absurd (other i x h (cc (p, e)) a (subst (λ z. is_active z.state ≡ true) (sym p) b))
      | inr (m, k) ↦ v.single i j x y h k e a b
    ]
  ];
}
  where
    Owned : RunRow → Type 0
    Owned y =
        (q : RoutineRow) × (get y.routine t.routines ≡ some q) × (q.user ≡ y.user) × (q.bot ≡ y.bot)

    other :
        (i : RoutineRunId) (x : RunRow)
        → get i t.runs ≡ some x
        → x.routine ≡ r.routine
        → is_active x.state ≡ true
        → is_active r.state ≡ true
        → ⊥
    other i x h e a b = elim alone [ inl f ↦ cc (f, b) | inr f ↦ cc (f i x h e, a) ]
