-- ===== src/Tests/Address.antt =====
-- A name server's address, which is public.
use bokkie.Prelude.{ℕ, ◌+◌, ◌*◌, ◌^◌, ◌≡◌, ◌↔◌, inr, refl, All, true, false, arith}
use bokkie.Address.Ranges.{
  IpAddr, octets, is_public, is_public_v4, nat64, non_public_v4, non_public_v6, in_any, in_range,
}
use bokkie.Address.Public.{
  Outside, Within, is_public_v4-Outside, is_public-embedded, is_public_v6-Within,
}

abbrev server : ℕ
server = octets 9 9 9 9

public_server : is_public (IpAddr.v4 server) ≡ true
unfolding is_public is_public_v4 in_any in_range non_public_v4
public_server = refl

tailnet : is_public (IpAddr.v4 (octets 100 127 1 2)) ≡ false
unfolding is_public is_public_v4 in_any in_range non_public_v4
tailnet = refl

is_public_v4-Outside_example : (is_public_v4 server ≡ true) ↔ All (Outside 32 server) non_public_v4
is_public_v4-Outside_example = is_public_v4-Outside server

is_public-embedded_example :
    (is_public (IpAddr.v6 (0xffff * 2 ^ 32 + server)) ≡ is_public (IpAddr.v4 server))
    × (is_public (IpAddr.v6 (nat64 + server)) ≡ is_public (IpAddr.v4 server))
is_public-embedded_example = is_public-embedded server (omega arith)

is_public_v6-Within_example : (is_public (IpAddr.v6 (0x2620 * 2 ^ 112)) ≡ true) ↔ (
    Within 128 (0x2620 * 2 ^ 112) (0x2000 * 2 ^ 112, 3)
    × All (Outside 128 (0x2620 * 2 ^ 112)) non_public_v6)
is_public_v6-Within_example =
    is_public_v6-Within (0x2620 * 2 ^ 112) (inr (omega arith)) (inr (omega arith))
