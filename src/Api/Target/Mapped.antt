-- ===== src/Api/Target/Mapped.antt =====
-- The IPv6 addresses that stand for IPv4 addresses.
use aether_relay.Prelude.{ℕ, ◌+◌, ◌*◌, ◌/◌, ◌%◌, ◌<◌, ◌≡◌, refl, ap, some, arith}
use aether_relay.Api.Target.{
  Ipv4Addr, Ipv6Addr, v6, is_blocked_v4, to_ipv4_mapped, is_blocked_mapped, is_blocked_ip,
}

-- Four octets.
pub record IsAddr (ip : Ipv4Addr) : Type 0 where
  pub a-lt : ip.a < 256
  pub b-lt : ip.b < 256
  pub c-lt : ip.c < 256
  pub d-lt : ip.d < 256

abbrev pub mapped : Ipv4Addr → Ipv6Addr
mapped ip = record {
  s0 = 0;
  s1 = 0;
  s2 = 0;
  s3 = 0;
  s4 = 0;
  s5 = 65535;
  s6 = ip.a * 256 + ip.b;
  s7 = ip.c * 256 + ip.d;
}

high_byte : (m n : ℕ) → n < 256 → (m * 256 + n) / 256 ≡ m
high_byte m n h = omega arith

low_byte : (m n : ℕ) → n < 256 → (m * 256 + n) % 256 ≡ n
low_byte m n h = omega arith

unmapped : (ip : Ipv4Addr) → IsAddr ip → to_ipv4_mapped (mapped ip) ≡ some ip
unfolding to_ipv4_mapped
unmapped ip r =
    rw
      (
        high_byte ip.a ip.b r.b-lt,
        low_byte ip.a ip.b r.b-lt,
        high_byte ip.c ip.d r.d-lt,
        low_byte ip.c ip.d r.d-lt,
      )
      refl

-- An IPv6 address that is mapped from an IPv4 address of four octets is blocked exactly as that IPv4 address.
pub is_blocked-mapped :
    (ip : Ipv4Addr) → IsAddr ip → is_blocked_ip (v6 (mapped ip)) ≡ is_blocked_v4 ip
unfolding is_blocked_ip
is_blocked-mapped ip r = ap is_blocked_mapped (unmapped ip r)
