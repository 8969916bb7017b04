-- ===== src/Address/Public.antt =====
-- address.rs: which addresses are public, in terms of intervals.
use bokkie.Prelude.{
  sym, ◌∙◌, ap, suc, zero, ℕ, ◌+◌, ◌-◌, ◌*◌, ◌/◌, ◌%◌, ◌^◌, ◌≤◌, ◌<◌, ◌≡◌, ◌↔◌, refl, ◌⊎◌, inl, inr,
  Bool, true, false, not, ◌&&◌, none, some, List, [], ◌∷◌, ==_iff, All, arith, Bool-cases,
}
use mathlib.Core.Bool.{true≢false}
use bokkie.Address.Ranges.{
  IpAddr, Range, masked, in_range, in_any, non_public_v4, non_public_v6, is_public_v4, nat64,
  to_ipv4_mapped, unmapped_v6, is_public_v6, is_public,
}

-- The addresses from the network's first to its last.
abbrev pub Within : ℕ → ℕ → Range → Type 0
Within width bits (network, prefix) = (network ≤ bits) × (bits < network + 2 ^ (width - prefix))

abbrev pub Outside : ℕ → ℕ → Range → Type 0
Outside width bits (network, prefix) = (bits < network) ⊎ (network + 2 ^ (width - prefix) ≤ bits)

abbrev Aligned : ℕ → Range → Type 0
Aligned width (network, prefix) = network % 2 ^ (width - prefix) ≡ 0

mul_mono : (m a b : ℕ) → a ≤ b → a * m ≤ b * m
mul_mono m zero b h = omega arith
mul_mono m (suc a) zero h = absurd (omega arith)
mul_mono m (suc a) (suc b) h = omega (arith, mul_mono m a b (omega arith))

order : (a b : ℕ) → (a < b) ⊎ ((a ≡ b) ⊎ (b < a))
order a b = omega arith

masked_in :
    (m bits network : ℕ)
    → 0 < m
    → network % m ≡ 0
    → (bits / m * m ≡ network / m * m) ↔ ((network ≤ bits) × (bits < network + m))
masked_in m bits network p a = (λ e. (omega arith, omega arith), λ (low, high). same low high)
  where
    quotients : network ≤ bits → bits < network + m → bits / m ≡ network / m
    quotients low high = elim (order (bits / m) (network / m)) [
      | inl less ↦ absurd (omega (arith, low, high, mul_mono m (suc (bits / m)) (network / m) less))
      | inr (inl equal) ↦ equal
      | inr (inr more) ↦
          absurd (omega (arith, low, high, mul_mono m (suc (network / m)) (bits / m) more))
    ]

    same : network ≤ bits → bits < network + m → bits / m * m ≡ network / m * m
    same low high = ap (λ q. q * m) (quotients low high)

pow_pos : (k : ℕ) → 0 < 2 ^ k
pow_pos zero = omega arith
pow_pos (suc k) = omega (arith, pow_pos k)

in_range-Within :
    (width bits : ℕ) (r : Range)
    → Aligned width r
    → (in_range width bits r ≡ true) ↔ Within width bits r
unfolding in_range
in_range-Within width bits (network, prefix) a =
    let low = width - prefix in
    let same = masked_in (2 ^ low) bits network (pow_pos low) a in
    let tested = ==_iff (masked low bits) (masked low network) in
    (λ h. same.0 (tested.0 h), λ w. tested.1 (same.1 w))

place : (bits n m : ℕ) → (bits < n) ⊎ (((n ≤ bits) × (bits < n + m)) ⊎ (n + m ≤ bits))
place bits n m = omega arith

in_range-Outside :
    (width bits : ℕ) (r : Range)
    → Aligned width r
    → (in_range width bits r ≡ false) ↔ Outside width bits r
in_range-Outside width bits (network, prefix) a = (out, back)
  where
    both : in_range width bits (network, prefix) ≡ true → Within width bits (network, prefix)
    both = (in_range-Within width bits (network, prefix) a).0

    out : in_range width bits (network, prefix) ≡ false → Outside width bits (network, prefix)
    out h = elim (place bits network (2 ^ (width - prefix))) [
      | inl below ↦ inl below
      | inr (inl inside) ↦
          absurd (true≢false (sym ((in_range-Within width bits (network, prefix) a).1 inside) ∙ h))
      | inr (inr above) ↦ inr above
    ]

    back : Outside width bits (network, prefix) → in_range width bits (network, prefix) ≡ false
    back o = elim (Bool-cases (in_range width bits (network, prefix))) [
      | inl q ↦ let w : Within width bits (network, prefix) = both q in absurd (omega (arith, o, w))
      | inr q ↦ q
    ]

in_any-Outside :
    (width bits : ℕ) (rs : List Range)
    → All (Aligned width) rs
    → (in_any width bits rs ≡ false) ↔ All (Outside width bits) rs
unfolding in_any
in_any-Outside width bits [] a = (λ h. tt, λ h. refl)
in_any-Outside width bits (r ∷ rs) a =
    let first = in_range-Outside width bits r a.0 in
    let rest = in_any-Outside width bits rs a.1 in
    (λ h. (first.0 (ground arith), rest.0 (ground arith)), λ o. rw (first.1 o.0, rest.1 o.1) refl)

-- An IPv4 address is public exactly where it lies outside every one of the ranges listed, each from
-- its network's first address to its last.
pub is_public_v4-Outside :
    (bits : ℕ) → (is_public_v4 bits ≡ true) ↔ All (Outside 32 bits) non_public_v4
unfolding is_public_v4
is_public_v4-Outside bits =
    let ranges = in_any-Outside 32 bits non_public_v4 aligned in
    (λ h. ranges.0 (ground arith), λ o. rw (ranges.1 o) refl)
  where
    aligned : All (Aligned 32) non_public_v4
    aligned = unfold non_public_v4 in ground arith

mapped_v6 : (x v : ℕ) → to_ipv4_mapped x ≡ some v → is_public_v6 x ≡ is_public_v4 v
unfolding is_public_v6
mapped_v6 x v h = rw (h, is_public_v6) refl

other_v6 : (x : ℕ) → to_ipv4_mapped x ≡ none → is_public_v6 x ≡ unmapped_v6 x
unfolding is_public_v6
other_v6 x h = rw (h, is_public_v6) refl

translated_v6 :
    (x : ℕ) → in_range 128 x (nat64, 96) ≡ true → unmapped_v6 x ≡ is_public_v4 (x % 2 ^ 32)
unfolding unmapped_v6
translated_v6 x h = rw (h, unmapped_v6) refl

native_v6 :
    (x : ℕ)
    → in_range 128 x (nat64, 96) ≡ false
    → unmapped_v6 x ≡ (in_range 128 x (0x2000 * 2 ^ 112, 3) && not (in_any 128 x non_public_v6))
unfolding unmapped_v6
native_v6 x h = rw (h, unmapped_v6) refl

mapped_at : (bits : ℕ) → bits < 2 ^ 32 → to_ipv4_mapped (0xffff * 2 ^ 32 + bits) ≡ some bits
unfolding to_ipv4_mapped
mapped_at bits h =
    let high : (0xffff * 2 ^ 32 + bits) / 2 ^ 32 ≡ 0xffff = omega arith in
    let low : (0xffff * 2 ^ 32 + bits) % 2 ^ 32 ≡ bits = omega arith in
    rw (high, low, to_ipv4_mapped) refl

unmapped_at : (bits : ℕ) → Outside 128 bits (0xffff * 2 ^ 32, 96) → to_ipv4_mapped bits ≡ none
unfolding to_ipv4_mapped
unmapped_at bits h = ground arith

-- An IPv6 address that carries an IPv4 address, as a mapped address (::ffff:0:0/96) or in the NAT64
-- prefix (64:ff9b::/96), is public exactly where the IPv4 address is.
pub is_public-embedded :
    (bits : ℕ)
    → bits < 2 ^ 32
    → (is_public (IpAddr.v6 (0xffff * 2 ^ 32 + bits)) ≡ is_public (IpAddr.v4 bits))
      × (is_public (IpAddr.v6 (nat64 + bits)) ≡ is_public (IpAddr.v4 bits))
unfolding is_public
is_public-embedded bits h = (
  mapped_v6 (0xffff * 2 ^ 32 + bits) bits (mapped_at bits h),
  other_v6 (nat64 + bits) (unmapped_at (nat64 + bits) (inr (omega arith)))
      ∙ translated_v6 (nat64 + bits) (
          (in_range-Within 128 (nat64 + bits) (nat64, 96) (omega arith)).1
            (omega arith, omega arith))
      ∙ ap is_public_v4 low,
)
  where
    low : (nat64 + bits) % 2 ^ 32 ≡ bits
    low = omega arith

halves : (a b : Bool) → (a && not b) ≡ true → (a ≡ true) × (b ≡ false)
halves a b h = ground arith

-- Any other IPv6 address is public exactly where it is global unicast (2000::/3) and outside the
-- reserved ranges listed.
pub is_public_v6-Within :
    (bits : ℕ)
    → Outside 128 bits (0xffff * 2 ^ 32, 96)
    → Outside 128 bits (nat64, 96)
    → (is_public (IpAddr.v6 bits) ≡ true)
      ↔ (Within 128 bits (0x2000 * 2 ^ 112, 3) × All (Outside 128 bits) non_public_v6)
unfolding is_public
is_public_v6-Within bits plain other =
    let global = in_range-Within 128 bits (0x2000 * 2 ^ 112, 3) (omega arith) in
    let ranges = in_any-Outside 128 bits non_public_v6 (unfold non_public_v6 in ground arith) in
    let native = native_v6 bits ((in_range-Outside 128 bits (nat64, 96) (omega arith)).1 other) in
    let tested = other_v6 bits (unmapped_at bits plain) ∙ native in
    (
      λ h.
          let (inside, outside) = halves _ _ (sym tested ∙ h) in
          (global.0 inside, ranges.0 outside),
      λ (w, o). tested ∙ rw (global.1 w, ranges.1 o) refl,
    )
