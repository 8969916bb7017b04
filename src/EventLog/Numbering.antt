-- ===== src/EventLog/Numbering.antt =====
-- Events numbered one after another, and what the table's statements do to such rows.
use bokkie.Prelude.{
  ℕ, zero, suc, ◌+◌, ◌-◌, ◌≤◌, ◌<◌, ◌≡◌, refl, sym, subst, some, List, [], ◌∷◌, ◌++◌, arith, length,
  drop, ltb, if◌then◌else◌,
}
use bokkie.Protocol.Events.{Seq, EventEnvelope}
use bokkie.EventLog.Rows.{Rows, insert_row, stored_last, earliest, rows_after, delete_up_to}

-- The numbers go up by one from the one after `n`.
abbrev pub Consecutive : Seq → List EventEnvelope → Type 0
Consecutive n [] = Unit
Consecutive n (e ∷ es) = (e.seq ≡ suc n) × Consecutive (suc n) es

pub Consecutive-at :
    {n m : Seq} (xs : List EventEnvelope) → n ≡ m → Consecutive n xs → Consecutive m xs
Consecutive-at xs e h = subst (λ k. Consecutive k xs) e h

pub Consecutive-append :
    (n : Seq) (xs ys : List EventEnvelope)
    → Consecutive n xs
    → Consecutive (n + length xs) ys
    → Consecutive n (xs ++ ys)
Consecutive-append n [] ys hx hy = Consecutive-at ys (omega arith) hy
Consecutive-append n (x ∷ xs) ys hx hy =
    (hx.0, Consecutive-append (suc n) xs ys hx.1 (Consecutive-at ys (omega arith) hy))

pub Consecutive-drop :
    (d n : ℕ) (xs : List EventEnvelope)
    → d ≤ length xs
    → Consecutive n xs
    → Consecutive (d + n) (drop d xs)
Consecutive-drop zero n xs h c = Consecutive-at xs (omega arith) c
Consecutive-drop (suc d) n [] h c = tt
Consecutive-drop (suc d) n (x ∷ xs) h c =
    Consecutive-at (drop d xs) (omega arith) (Consecutive-drop d (suc n) xs (omega arith) c.1)

pub insert_row-last :
    (n : Seq) (e : EventEnvelope) (rows : Rows)
    → n + length rows < e.seq
    → Consecutive n rows
    → insert_row e rows ≡ some (rows ++ e ∷ [])
unfolding insert_row
insert_row-last n e [] h c = refl
insert_row-last n e (r ∷ rows) h c = ground (arith, insert_row-last (suc n) e rows)

pub stored_last-Consecutive :
    (n : Seq) (r : EventEnvelope) (rows : Rows)
    → Consecutive n (r ∷ rows)
    → stored_last (r ∷ rows) ≡ n + length (r ∷ rows)
unfolding stored_last
stored_last-Consecutive n r [] c = ground arith
stored_last-Consecutive n r (x ∷ rows) c = omega (arith, stored_last-Consecutive (suc n) x rows c.1)

pub drop-nil : (k : ℕ) → drop {A = EventEnvelope} k [] ≡ []
drop-nil zero = refl
drop-nil (suc k) = refl

-- `drop` of a list with a head, in the form that a test on the number gives.
drop-cons :
    (k : ℕ) (x : EventEnvelope) (xs : List EventEnvelope)
    → drop k (x ∷ xs) ≡ (if ltb 0 k then drop (k - 1) xs else x ∷ xs)
drop-cons zero x xs = refl
drop-cons (suc k) x xs = let e : suc k - 1 ≡ k = omega arith in rw e (ground arith)

delete_up_to-above :
    (n u : Seq) (rows : Rows) → Consecutive n rows → u ≤ n → delete_up_to u rows ≡ rows
unfolding delete_up_to
delete_up_to-above n u [] c h = refl
delete_up_to-above n u (r ∷ rows) c h = ground (arith, delete_up_to-above (suc n) u rows c.1)

pub delete_up_to-drop :
    (n u : Seq) (rows : Rows) → Consecutive n rows → delete_up_to u rows ≡ drop (u - n) rows
unfolding delete_up_to
delete_up_to-drop n u [] c = sym (drop-nil (u - n))
delete_up_to-drop n u (r ∷ rows) c = ground (
  arith,
  delete_up_to-drop (suc n) u rows c.1,
  drop-cons (u - n) r rows,
  delete_up_to-above (suc n) u rows c.1,
)

-- The rows after a number of the log, and the first and last numbers.
pub rows_after-drop :
    (n after : Seq) (rows : Rows)
    → Consecutive n rows
    → rows_after after rows ≡ drop (after - n) rows
unfolding rows_after
rows_after-drop n after [] c = sym (drop-nil (after - n))
rows_after-drop n after (r ∷ rows) c =
    ground (arith, rows_after-drop (suc n) after rows c.1, drop-cons (after - n) r rows)

pub earliest-Consecutive :
    (n : Seq) (r : EventEnvelope) (rows : Rows)
    → Consecutive n (r ∷ rows)
    → earliest (r ∷ rows) ≡ some (suc n)
unfolding earliest
earliest-Consecutive n r [] c = ground arith
earliest-Consecutive n r (x ∷ rows) c = ground (arith, earliest-Consecutive (suc n) x rows c.1)

-- Dropping the oldest.
pub drop-append :
    (d : ℕ) (xs ys : List EventEnvelope) → d ≤ length xs → drop d (xs ++ ys) ≡ drop d xs ++ ys
drop-append zero xs ys h = refl
drop-append (suc d) [] ys h = absurd (omega arith)
drop-append (suc d) (x ∷ xs) ys h = drop-append d xs ys (omega arith)

pub drop-drop : (d k : ℕ) (xs : List EventEnvelope) → drop k (drop d xs) ≡ drop (d + k) xs
drop-drop zero k xs = let e : 0 + k ≡ k = omega arith in rw e
drop-drop (suc d) zero [] = let e : suc d + 0 ≡ suc d = omega arith in rw e
drop-drop (suc d) (suc k) [] = let e : suc d + suc k ≡ suc (suc (d + k)) = omega arith in rw e
drop-drop (suc d) k (x ∷ xs) =
    let e : suc d + k ≡ suc (d + k) = omega arith in rw e (drop-drop d k xs)
