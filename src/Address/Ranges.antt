-- ===== src/Address/Ranges.antt =====
-- address.rs: `is_public` and what it calls. An address is its `u32` or `u128`. A mask of a prefix
-- clears the low bits.
use bokkie.Prelude.{
  ℕ, ◌+◌, ◌-◌, ◌*◌, ◌/◌, ◌%◌, ◌^◌, Bool, false, not, ◌&&◌, ◌||◌, Option, none, some, List, [], ◌∷◌,
  ◌==◌, if◌then◌else◌,
}

pub data IpAddr : Type 0 where
  v4 : (bits : ℕ) → IpAddr
  v6 : (bits : ℕ) → IpAddr

-- `u32::from_be_bytes`.
abbrev pub octets : ℕ → ℕ → ℕ → ℕ → ℕ
octets a b c d = ((a * 256 + b) * 256 + c) * 256 + d

abbrev pub Range : Type 0
Range = ℕ × ℕ

-- `NON_PUBLIC_V4`.
unfoldable pub non_public_v4 : List Range
non_public_v4 =
    (octets 0 0 0 0, 8)
    ∷ (octets 10 0 0 0, 8)
    ∷ (octets 100 64 0 0, 10)
    ∷ (octets 127 0 0 0, 8)
    ∷ (octets 169 254 0 0, 16)
    ∷ (octets 172 16 0 0, 12)
    ∷ (octets 192 0 0 0, 24)
    ∷ (octets 192 0 2 0, 24)
    ∷ (octets 192 31 196 0, 24)
    ∷ (octets 192 52 193 0, 24)
    ∷ (octets 192 88 99 0, 24)
    ∷ (octets 192 168 0 0, 16)
    ∷ (octets 192 175 48 0, 24)
    ∷ (octets 198 18 0 0, 15)
    ∷ (octets 198 51 100 0, 24)
    ∷ (octets 203 0 113 0, 24)
    ∷ (octets 224 0 0 0, 4)
    ∷ (octets 240 0 0 0, 4)
    ∷ []

-- `bits & (MAX << low)`.
abbrev pub masked : ℕ → ℕ → ℕ
masked low bits = bits / 2 ^ low * 2 ^ low

-- `in_range`, for addresses of a width.
unfoldable pub in_range : ℕ → ℕ → Range → Bool
in_range width bits (network, prefix) =
    masked (width - prefix) bits == masked (width - prefix) network

unfoldable pub in_any : ℕ → ℕ → List Range → Bool
in_any width bits [] = false
in_any width bits (r ∷ rs) = in_range width bits r || in_any width bits rs

unfoldable pub is_public_v4 : ℕ → Bool
is_public_v4 bits = not (in_any 32 bits non_public_v4)

-- `NON_PUBLIC_V6`.
unfoldable pub non_public_v6 : List Range
non_public_v6 =
    (0x20010000 * 2 ^ 96, 23)
    ∷ (0x20010db8 * 2 ^ 96, 32)
    ∷ (0x2002 * 2 ^ 112, 16)
    ∷ (0x3fff * 2 ^ 112, 20)
    ∷ []

abbrev pub nat64 : ℕ
nat64 = 0x0064ff9b * 2 ^ 96

-- `Ipv6Addr::to_ipv4_mapped`: ::ffff:0:0/96.
unfoldable pub to_ipv4_mapped : ℕ → Option ℕ
to_ipv4_mapped bits = if bits / 2 ^ 32 == 0xffff then some (bits % 2 ^ 32) else none

unfoldable pub unmapped_v6 : ℕ → Bool
unfolding in_range in_any is_public_v4 non_public_v6
unmapped_v6 bits =
    if in_range 128 bits (nat64, 96)
    then is_public_v4 (bits % 2 ^ 32)
    else in_range 128 bits (0x2000 * 2 ^ 112, 3) && not (in_any 128 bits non_public_v6)

unfoldable pub is_public_v6 : ℕ → Bool
unfolding to_ipv4_mapped unmapped_v6
is_public_v6 bits = elim (to_ipv4_mapped bits) [
  | none ↦ unmapped_v6 bits
  | some mapped ↦ is_public_v4 mapped
]

unfoldable pub is_public : IpAddr → Bool
is_public (IpAddr.v4 bits) = is_public_v4 bits
is_public (IpAddr.v6 bits) = is_public_v6 bits
