-- ===== src/Protocol/Clock.antt =====
-- crates/bokkie-protocol/src/api.rs, `TimeOfDay` on the wire. A text is a list of Unicode scalar
-- values.
use bokkie.Prelude.{
  ℕ, ◌+◌, ◌-◌, ◌*◌, ◌/◌, ◌%◌, ◌<◌, ◌≡◌, refl, ◌↔◌, Bool, true, ◌&&◌, Option, none, some, [], ◌∷◌,
  ◌++◌, arith, leb, ltb, ◌==◌, Bool-cases, Option-cases, inl, inr, if◌then◌else◌,
}
use bokkie.Protocol.Routines.{Text, TimeOfDay}

-- The fields are private: outside the module only `new` makes a time.
unfoldable pub new : ℕ → ℕ → Option TimeOfDay
new h m = if ltb h 24 && ltb m 60 then some (record { hour = h; minute = m }) else none

-- `{:02}` of a `u8`.
unfoldable pub padded : ℕ → Text
padded n =
    let units = b'0' + n % 10 in
    if ltb n 100
    then (b'0' + n / 10) ∷ units ∷ []
    else (b'0' + n / 100) ∷ (b'0' + n / 10 % 10) ∷ units ∷ []

unfoldable pub display : TimeOfDay → Text
unfolding padded
display t = padded t.hour ++ b':' ∷ padded t.minute

unfoldable pub split_once : ℕ → Text → Option (Text × Text)
split_once sep [] = none
split_once sep (c ∷ cs) =
    let rest = split_once sep cs in
    if c == sep then some ([], cs) else elim rest [ none ↦ none | some (l, r) ↦ some (c ∷ l, r) ]

-- The bytes of a scalar value in UTF-8, and of a text.
unfoldable pub utf8_len : ℕ → ℕ
utf8_len c = if ltb c 0x80 then 1 else if ltb c 0x800 then 2 else if ltb c 0x10000 then 3 else 4

unfoldable pub byte_len : Text → ℕ
unfolding utf8_len
byte_len [] = 0
byte_len (c ∷ cs) = utf8_len c + byte_len cs

-- The bytes of a scalar value above ASCII are no digits.
abbrev pub is_digit : ℕ → Bool
is_digit c = leb b'0' c && leb c b'9'

unfoldable pub all_digits : Text → Bool
all_digits [] = true
all_digits (c ∷ cs) = is_digit c && all_digits cs

-- `parse::<u8>` of decimal digits, of which there is one at least.
unfoldable pub parse_from : ℕ → Text → Option ℕ
parse_from n [] = some n
parse_from n (c ∷ cs) =
    let next = n * 10 + (c - b'0') in
    let rest = parse_from next cs in if ltb next 256 then rest else none

unfoldable pub digits : Text → Option ℕ
unfolding byte_len all_digits parse_from
digits part = if (byte_len part == 2) && all_digits part then parse_from 0 part else none

unfoldable pub from_str : Text → Option TimeOfDay
unfolding split_once digits new
from_str text = elim (split_once b':' text) [
  | none ↦ none
  | some (h, m) ↦ elim (digits h) [
    | none ↦ none
    | some h ↦ elim (digits m) [ none ↦ none | some m ↦ new h m ]
  ]
]

digits_of : (n : ℕ) → n < 100 → digits (padded n) ≡ some n
unfolding digits padded
digits_of n h = ground arith

split_padded :
    (n : ℕ) (t : Text) → n < 100 → split_once b':' (padded n ++ b':' ∷ t) ≡ some (padded n, t)
unfolding split_once padded
split_padded n t h = ground arith

abbrev pub IsValid : TimeOfDay → Type 0
IsValid t = (t.hour < 24) × (t.minute < 60)

digit_len : (c : ℕ) → is_digit c ≡ true → utf8_len c ≡ 1
unfolding utf8_len
digit_len c h = ground arith

digits_in :
    (part : Text) (n : ℕ)
    → digits part ≡ some n
    → (byte_len part ≡ 2) × (all_digits part ≡ true) × (parse_from 0 part ≡ some n)
unfolding digits
digits_in part n h = elim (Bool-cases (byte_len part == 2)) [
  | inl q ↦ elim (Bool-cases (all_digits part)) [
    | inl r ↦ (ground arith, r, ground arith)
    | inr r ↦ absurd (ground arith)
  ]
  | inr q ↦ absurd (ground arith)
]

two_digits :
    (a b n : ℕ)
    → is_digit a ≡ true
    → is_digit b ≡ true
    → parse_from 0 (a ∷ b ∷ []) ≡ some n
    → (padded n ≡ a ∷ b ∷ []) × (n < 100)
unfolding parse_from padded
two_digits a b n p q h =
    let e : n ≡ (a - b'0') * 10 + (b - b'0') = ground arith in
    let l : n < 100 = ground arith in
    let u : b'0' + n % 10 ≡ b = ground arith in
    let t : b'0' + n / 10 ≡ a = ground arith in (ground arith, l)

-- Two bytes of digits are the digits that a number under a hundred is printed with.
padded-digits : (part : Text) (n : ℕ) → digits part ≡ some n → (padded n ≡ part) × (n < 100)
unfolding byte_len all_digits
padded-digits part n h = let i = digits_in part n h in by_length part i.0 i.1 i.2
  where
    by_length :
        (part : Text)
        → byte_len part ≡ 2
        → all_digits part ≡ true
        → parse_from 0 part ≡ some n
        → (padded n ≡ part) × (n < 100)
    by_length [] l d e = absurd (omega arith)
    by_length (a ∷ []) l d e = absurd (omega (arith, digit_len a (ground arith)))
    by_length (a ∷ b ∷ []) l d e = two_digits a b n (ground arith) (ground arith) e
    by_length (a ∷ b ∷ c ∷ part) l d e = absurd (
        omega (
          arith,
          digit_len a (ground arith),
          digit_len b (ground arith),
          digit_len c (ground arith),
        ))

split_once_lem :
    (sep : ℕ) (text l r : Text) → split_once sep text ≡ some (l, r) → text ≡ l ++ sep ∷ r
unfolding split_once
split_once_lem sep [] l r h = absurd (ground arith)
split_once_lem sep (c ∷ cs) l r h = elim (Bool-cases (c == sep)) [
  | inl q ↦
      let e : c ≡ sep = ground arith in
      let f : ◌≡◌ {A = Option (Text × Text)} (some ([], cs)) (some (l, r)) =
        rw (← h, q, split_once) refl in
      cc (e, f)
  | inr q ↦ elim (Option-cases (split_once sep cs)) [
    | inl n ↦ absurd (ground arith)
    | inr (pair, e) ↦
        let f : ◌≡◌ {A = Option (Text × Text)} (some (c ∷ pair.0, pair.1)) (some (l, r)) =
          rw (← h, q, split_once, e) refl in
        let g = split_once_lem sep cs pair.0 pair.1 e in cc (g, f)
  ]
]

-- A text reads as a time of day exactly if it is how that time is printed, and the time is one:
-- its hour is under 24 and its minute under 60.
pub from_str-display :
    (text : Text) (t : TimeOfDay) → (from_str text ≡ some t) ↔ (IsValid t × (display t ≡ text))
unfolding from_str display
from_str-display text t = (reads, prints)
  where
    parts :
        (h m : Text) (a b : ℕ)
        → text ≡ h ++ b':' ∷ m
        → (padded a ≡ h) × (a < 100)
        → (padded b ≡ m) × (b < 100)
        → new a b ≡ some t
        → IsValid t × (display t ≡ text)
    parts h m a b e p q n =
        let v : (a < 24) × (b < 60) = ground arith in
        let c : (t.hour ≡ a) × (t.minute ≡ b) = ground arith in rw (c.0, c.1, e) (v, cc (p.0, q.0))

    reads : from_str text ≡ some t → IsValid t × (display t ≡ text)
    reads h = elim (Option-cases (split_once b':' text)) [
      | inl n ↦ absurd (ground arith)
      | inr (pair, e) ↦ elim (Option-cases (digits pair.0)) [
        | inl n ↦ absurd (ground arith)
        | inr (a, f) ↦ elim (Option-cases (digits pair.1)) [
          | inl n ↦ absurd (ground arith)
          | inr (b, g) ↦
              parts pair.0 pair.1 a b (split_once_lem b':' text pair.0 pair.1 e)
                (padded-digits pair.0 a f) (padded-digits pair.1 b g) (ground arith)
        ]
      ]
    ]

    prints : IsValid t × (display t ≡ text) → from_str text ≡ some t
    prints (v, e) =
        rw
          (
            ← e,
            from_str,
            split_padded t.hour (padded t.minute) (omega (arith, v.0)),
            digits_of t.hour (omega (arith, v.0)),
            digits_of t.minute (omega (arith, v.1)),
          )
          (ground arith)
