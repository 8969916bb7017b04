-- ===== src/Store/Streaming.antt =====
-- A streaming reply, assembled from deltas that may repeat or overlap.
use mathlib.Core.List.{append-nil}
use bokkie.Prelude.{
  ℕ, zero, suc, ◌+◌, ◌-◌, ◌≤◌, ◌≡◌, refl, sym, ap, ◌∙◌, max, not, Option, none, some, List, [], ◌∷◌,
  ◌++◌, arith, ltb, length, length-append, length-drop, take, drop,
}
use bokkie.Protocol.Routines.{Text}
use bokkie.Protocol.Api.{Message, MessageState}
use bokkie.Store.Snapshots.{is_empty}
use bokkie.Store.Messages.{append_delta}

-- The delta stands at this offset of the reply's final text.
abbrev pub PartOf : Text → ℕ → Text → Type 0
PartOf reply offset delta =
    (within : offset ≤ length reply) × (rest : Text) × (drop offset reply ≡ delta ++ rest)

length-take : (n : ℕ) (xs : Text) → n ≤ length xs → length (take n xs) ≡ n
length-take zero xs h = refl
length-take (suc n) [] h = absurd (omega arith)
length-take (suc n) (x ∷ xs) h = omega (arith, length-take n xs (omega arith))

take-append : (xs ys : Text) → take (length xs) (xs ++ ys) ≡ xs
take-append [] ys = refl
take-append (x ∷ xs) ys = ap (◌∷◌ x) (take-append xs ys)

-- What a copy of the first `k` characters lacks of a part that starts within them.
take-front :
    (k : ℕ) (delta rest : Text)
    → k ≤ length (delta ++ rest)
    → take k (delta ++ rest) ++ drop k delta ≡ take (max k (length delta)) (delta ++ rest)
take-front zero [] rest h = refl
take-front zero (d ∷ delta) rest h =
    let e : max 0 (suc (length delta)) ≡ suc (length delta) = omega arith in
    rw e (ap (◌∷◌ d) (sym (take-append delta rest)))
take-front (suc k) [] rest h =
    let e : max (suc k) 0 ≡ suc k = omega arith in rw e (append-nil (take (suc k) rest))
take-front (suc k) (d ∷ delta) rest h =
    let e : max (suc k) (suc (length delta)) ≡ suc (max k (length delta)) = omega arith in
    rw e (ap (◌∷◌ d) (take-front k delta rest (omega arith)))

take-part :
    (offset k : ℕ) (reply delta rest : Text)
    → offset ≤ k
    → k ≤ length reply
    → drop offset reply ≡ delta ++ rest
    → take k reply ++ drop (k - offset) delta ≡ take (max k (offset + length delta)) reply
take-part zero k reply delta rest h l e =
    let z : k - 0 ≡ k = omega arith in
    let y : 0 + length delta ≡ length delta = omega arith in
    rw (z, y, e) (take-front k delta rest (omega (arith, ap length e)))
take-part (suc offset) k [] delta rest h l e = absurd (omega arith)
take-part (suc offset) zero (x ∷ reply) delta rest h l e = absurd (omega arith)
take-part (suc offset) (suc k) (x ∷ reply) delta rest h l e =
    let z : suc k - suc offset ≡ k - offset = omega arith in
    let y : max (suc k) (suc offset + length delta) ≡ suc (max k (offset + length delta)) =
      omega arith in
    rw (z, y) (ap (◌∷◌ x) (take-part offset k reply delta rest (omega arith) (omega arith) e))

-- A copy that holds the first `k` characters of a reply that still streams.
pub record Copy (reply : Text) (k : ℕ) (m : Message) : Type 0 where
  pub streams : m.state ≡ MessageState.streaming
  pub within : k ≤ length reply
  pub holds : m.text ≡ take k reply

Copy-length : (reply : Text) (k : ℕ) (m : Message) → Copy reply k m → length m.text ≡ k
Copy-length reply k m c = rw c.holds (length-take k reply c.within)

part_ends :
    (reply : Text) (offset : ℕ) (delta : Text)
    → PartOf reply offset delta
    → offset + length delta ≤ length reply
part_ends reply offset delta (h, rest, e) =
    omega (arith, length-drop offset reply, ap length e, length-append delta rest)

grew : (n : ℕ) (delta : Text) → not (is_empty (drop n delta)) ≡ ltb n (length delta)
grew zero [] = refl
grew zero (d ∷ delta) = ground arith
grew (suc n) [] = ground arith
grew (suc n) (d ∷ delta) = ground (arith, grew n delta)

append_delta_eq :
    (k offset : ℕ) (delta : Text) (m : Message)
    → m.state ≡ MessageState.streaming
    → length m.text ≡ k
    → offset ≤ k
    → append_delta m offset delta
      ≡ some (
        record m { text = m.text ++ drop (length m.text - offset) delta },
        ltb k (offset + length delta),
      )
unfolding append_delta
append_delta_eq k offset delta m s l h = ground (arith, grew (k - offset) delta)

-- A delta of the reply that starts within the text held, whether it is held already in full, in part
-- or not at all, leaves the copy at the reply's first characters, up to the further of its old end
-- and the delta's end, and says exactly whether it grew.
pub append_delta-part :
    (reply : Text) (k offset : ℕ) (delta : Text) (m : Message)
    → Copy reply k m
    → PartOf reply offset delta
    → offset ≤ k
    → (m' : Message) × (append_delta m offset delta ≡ some (m', ltb k (offset + length delta)))
      × Copy reply (max k (offset + length delta)) m'
append_delta-part reply k offset delta m c (b, rest, e) h = (
  record m { text = m.text ++ drop (length m.text - offset) delta },
  append_delta_eq k offset delta m c.streams (Copy-length reply k m c) h,
  record {
    streams = c.streams;
    within = omega (arith, c.within, part_ends reply offset delta (b, rest, e));
    holds =
        rw (Copy-length reply k m c, c.holds) (take-part offset k reply delta rest h c.within e);
  },
)

take_all : (k : ℕ) (xs : Text) → length xs ≤ k → take k xs ≡ xs
take_all zero [] h = refl
take_all zero (x ∷ xs) h = absurd (omega arith)
take_all (suc k) [] h = refl
take_all (suc k) (x ∷ xs) h = ap (◌∷◌ x) (take_all k xs (omega arith))

-- Deltas as they arrive: each one starts no further than the ones before it reach, from `k` on.
abbrev pub Reaches : Text → ℕ → List (ℕ × Text) → Type 0
Reaches reply k [] = length reply ≤ k
Reaches reply k ((offset, delta) ∷ ds) =
    (offset ≤ k) × PartOf reply offset delta × Reaches reply (max k (offset + length delta)) ds

pub assemble : Message → List (ℕ × Text) → Option Message
assemble m [] = some m
assemble m ((offset, delta) ∷ ds) = elim (append_delta m offset delta) [
  | none ↦ none
  | some (m', _) ↦ assemble m' ds
]

-- A streaming copy that deltas reach the end of the reply for, with any repeats and overlaps, ends
-- with the reply's whole text.
pub assemble-reply :
    (reply : Text) (k : ℕ) (ds : List (ℕ × Text)) (m : Message)
    → Copy reply k m
    → Reaches reply k ds
    → (m' : Message) × (assemble m ds ≡ some m') × (m'.text ≡ reply)
unfolding assemble
assemble-reply reply k [] m c r = (m, refl, c.holds ∙ take_all k reply r)
assemble-reply reply k ((offset, delta) ∷ ds) m c (h, part, r) =
    let (m', e, c') = append_delta-part reply k offset delta m c part h in
    let (m'', e', t) = assemble-reply reply (max k (offset + length delta)) ds m' c' r in
    (m'', rw (e, assemble) e', t)
