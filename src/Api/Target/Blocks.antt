-- ===== src/Api/Target/Blocks.antt =====
-- The blocked IPv4 addresses as a table of address blocks.
use aether_relay.Prelude.{
  ltb, leb, ◌==◌, ℕ, ◌+◌, ◌*◌, ◌<◌, ◌≡◌, refl, sym, ◌∙◌, Bool, ◌&&◌, ◌||◌, arith,
}
use aether_relay.Api.Target.{Ipv4Addr, is_blocked_v4}
use aether_relay.Api.Target.Mapped.{IsAddr}

-- The address as a number of 32 bits.
abbrev pub to_u32 : Ipv4Addr → ℕ
to_u32 ip = ip.a * 16777216 + ip.b * 65536 + ip.c * 256 + ip.d

-- From a first address, as many addresses as given.
abbrev pub in_block : ℕ → ℕ → ℕ → Bool
in_block first size n = leb first n && ltb n (first + size)

-- a.b.c.d/8, a.b.c.d/16 and so on: the size is 2 to the bits that are free.
block_8 :
    (n a b c d : ℕ)
    → b < 256
    → c < 256
    → d < 256
    → in_block (n * 16777216) 16777216 (a * 16777216 + b * 65536 + c * 256 + d) ≡ (a == n)
block_8 n a b c d hb hc hd = ground arith

block_16 :
    (m n a b c d : ℕ)
    → n < 256
    → b < 256
    → c < 256
    → d < 256
    → in_block (m * 16777216 + n * 65536) 65536 (a * 16777216 + b * 65536 + c * 256 + d)
      ≡ (a == m && b == n)
block_16 m n a b c d hn hb hc hd = ground arith

block_24 :
    (l m n a b c d : ℕ)
    → m < 256
    → n < 256
    → b < 256
    → c < 256
    → d < 256
    → in_block (l * 16777216 + m * 65536 + n * 256) 256 (a * 16777216 + b * 65536 + c * 256 + d)
      ≡ (a == l && b == m && c == n)
block_24 l m n a b c d hm hn hb hc hd = ground arith

block_32 :
    (k l m n a b c d : ℕ)
    → l < 256
    → m < 256
    → n < 256
    → b < 256
    → c < 256
    → d < 256
    → in_block (k * 16777216 + l * 65536 + m * 256 + n) 1 (a * 16777216 + b * 65536 + c * 256 + d)
      ≡ (a == k && b == l && c == m && d == n)
block_32 k l m n a b c d hl hm hn hb hc hd = ground arith

block_12 :
    (m a b c d : ℕ)
    → b < 256
    → c < 256
    → d < 256
    → in_block (m * 16777216 + 16 * 65536) 1048576 (a * 16777216 + b * 65536 + c * 256 + d)
      ≡ (a == m && leb 16 b && leb b 31)
block_12 m a b c d hb hc hd = ground arith

block_10 :
    (m a b c d : ℕ)
    → b < 256
    → c < 256
    → d < 256
    → in_block (m * 16777216 + 64 * 65536) 4194304 (a * 16777216 + b * 65536 + c * 256 + d)
      ≡ (a == m && leb 64 b && ltb b 128)
block_10 m a b c d hb hc hd = ground arith

-- The two groups of the source's test, written flat.
flatten :
    (a b c d e f g h i j k : Bool)
    → (a || (b || c || d) || e || f || g || (h || i || j) || k)
      ≡ (a || b || c || d || e || f || g || h || i || j || k)
flatten a b c d e f g h i j k = ground arith

-- Loopback, the private ranges, link-local, broadcast, unspecified, documentation and carrier-grade NAT, by
-- first address and size.
abbrev pub in_blocked_block : ℕ → Bool
in_blocked_block n =
    in_block (127 * 16777216) 16777216 n
    || in_block (10 * 16777216) 16777216 n
    || in_block (172 * 16777216 + 16 * 65536) 1048576 n
    || in_block (192 * 16777216 + 168 * 65536) 65536 n
    || in_block (169 * 16777216 + 254 * 65536) 65536 n
    || in_block (255 * 16777216 + 255 * 65536 + 255 * 256 + 255) 1 n
    || in_block (0 * 16777216 + 0 * 65536 + 0 * 256 + 0) 1 n
    || in_block (192 * 16777216 + 0 * 65536 + 2 * 256) 256 n
    || in_block (198 * 16777216 + 51 * 65536 + 100 * 256) 256 n
    || in_block (203 * 16777216 + 0 * 65536 + 113 * 256) 256 n
    || in_block (100 * 16777216 + 64 * 65536) 4194304 n

or_cong : (a b c d : Bool) → a ≡ b → c ≡ d → (a || c) ≡ (b || d)
or_cong a b c d h k = rw (h, k) refl

-- An IPv4 address of four octets is blocked exactly when its number lies in one of the blocks 127.0.0.0/8, 10.0.0.0/8,
-- 172.16.0.0/12, 192.168.0.0/16, 169.254.0.0/16, 255.255.255.255/32, 0.0.0.0/32, 192.0.2.0/24,
-- 198.51.100.0/24, 203.0.113.0/24 and 100.64.0.0/10.
pub is_blocked_v4-eq-blocks :
    (ip : Ipv4Addr) → IsAddr ip → is_blocked_v4 ip ≡ in_blocked_block (to_u32 ip)
unfolding is_blocked_v4
is_blocked_v4-eq-blocks ip r =
    flatten (ip.a == 127) (ip.a == 10) (ip.a == 172 && leb 16 ip.b && leb ip.b 31)
      (ip.a == 192 && ip.b == 168) (ip.a == 169 && ip.b == 254)
      (ip.a == 255 && ip.b == 255 && ip.c == 255 && ip.d == 255)
      (ip.a == 0 && ip.b == 0 && ip.c == 0 && ip.d == 0) (ip.a == 192 && ip.b == 0 && ip.c == 2)
      (ip.a == 198 && ip.b == 51 && ip.c == 100) (ip.a == 203 && ip.b == 0 && ip.c == 113)
      (ip.a == 100 && leb 64 ip.b && ltb ip.b 128)
    ∙ sym (
        or_cong _ _ _ _
          (or_cong _ _ _ _
            (or_cong _ _ _ _
              (or_cong _ _ _ _
                (or_cong _ _ _ _
                  (or_cong _ _ _ _
                    (or_cong _ _ _ _
                      (or_cong _ _ _ _
                        (or_cong _ _ _ _
                          (or_cong _ _ _ _ (block_8 127 ip.a ip.b ip.c ip.d r.b-lt r.c-lt r.d-lt)
                            (block_8 10 ip.a ip.b ip.c ip.d r.b-lt r.c-lt r.d-lt))
                          (block_12 172 ip.a ip.b ip.c ip.d r.b-lt r.c-lt r.d-lt))
                        (block_16 192 168 ip.a ip.b ip.c ip.d (omega arith) r.b-lt r.c-lt r.d-lt))
                      (block_16 169 254 ip.a ip.b ip.c ip.d (omega arith) r.b-lt r.c-lt r.d-lt))
                    (block_32 255 255 255 255 ip.a ip.b ip.c ip.d (omega arith) (omega arith)
                      (omega arith) r.b-lt r.c-lt r.d-lt))
                  (block_32 0 0 0 0 ip.a ip.b ip.c ip.d (omega arith) (omega arith) (omega arith)
                    r.b-lt r.c-lt r.d-lt))
                (block_24 192 0 2 ip.a ip.b ip.c ip.d (omega arith) (omega arith) r.b-lt r.c-lt
                  r.d-lt))
              (block_24 198 51 100 ip.a ip.b ip.c ip.d (omega arith) (omega arith) r.b-lt r.c-lt
                r.d-lt))
            (block_24 203 0 113 ip.a ip.b ip.c ip.d (omega arith) (omega arith) r.b-lt r.c-lt
              r.d-lt))
          (block_10 100 ip.a ip.b ip.c ip.d r.b-lt r.c-lt r.d-lt))
