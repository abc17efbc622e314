-- ===== src/Api/Target.antt =====
-- src/api/endpoints.rs: which target URLs an endpoint may have. The URL parser of reqwest and the parser
-- of IP addresses are parameters, see `Parsers`.
pub mod Mapped
pub mod Blocks
use aether_relay.Prelude.{
  ltb, leb, ◌==◌, ◌=?◌, if◌then◌else◌, ℕ, ◌-◌, ◌/◌, ◌%◌, ◌^◌, String, ◌+++◌, Bool, false, ◌&&◌,
  ◌||◌, Option, none, some,
}
use aether_relay.Prelude.Str.{
  is_empty, trim_start_matches, trim_end_matches, trim, ends_with, eq_ignore_ascii_case,
}
use aether_relay.Error.{bad_request, Result, err, ok}
use aether_relay.Crypto.Signature.{provider_from_str}
use aether_relay.Error.Try.{ok_or, ◌>>=◌, ◌>>◌}

pub record Ipv4Addr : Type 0 where
  pub a : ℕ
  pub b : ℕ
  pub c : ℕ
  pub d : ℕ

-- The eight 16-bit segments.
pub record Ipv6Addr : Type 0 where
  pub s0 : ℕ
  pub s1 : ℕ
  pub s2 : ℕ
  pub s3 : ℕ
  pub s4 : ℕ
  pub s5 : ℕ
  pub s6 : ℕ
  pub s7 : ℕ

pub data IpAddr : Type 0 where
  v4 : Ipv4Addr → IpAddr
  v6 : Ipv6Addr → IpAddr

-- A parsed URL: its scheme and its host, if it has one.
pub record Url : Type 0 where
  pub scheme : String
  pub host_str : Option String

-- `reqwest::Url::parse`, which fails with the text of an error, and `str::parse::<IpAddr>`.
pub record Parsers : Type 0 where
  pub parse_url : String → Result Url
  pub parse_ip : String → Option IpAddr

abbrev is_loopback : Ipv4Addr → Bool
is_loopback ip = ip.a == 127

abbrev is_private : Ipv4Addr → Bool
is_private ip =
    ip.a == 10 || ip.a == 172 && leb 16 ip.b && leb ip.b 31 || ip.a == 192 && ip.b == 168

abbrev is_link_local : Ipv4Addr → Bool
is_link_local ip = ip.a == 169 && ip.b == 254

abbrev is_broadcast : Ipv4Addr → Bool
is_broadcast ip = ip.a == 255 && ip.b == 255 && ip.c == 255 && ip.d == 255

abbrev is_unspecified : Ipv4Addr → Bool
is_unspecified ip = ip.a == 0 && ip.b == 0 && ip.c == 0 && ip.d == 0

abbrev is_documentation : Ipv4Addr → Bool
is_documentation ip =
    ip.a == 192 && ip.b == 0 && ip.c == 2
    || ip.a == 198 && ip.b == 51 && ip.c == 100
    || ip.a == 203 && ip.b == 0 && ip.c == 113

unfoldable pub is_blocked_v4 : Ipv4Addr → Bool
is_blocked_v4 ip =
    is_loopback ip
    || is_private ip
    || is_link_local ip
    || is_broadcast ip
    || is_unspecified ip
    || is_documentation ip
    || ip.a == 100 && leb 64 ip.b && ltb ip.b 128

-- The first seven segments of `::` and `::1`.
abbrev seven_zeros : Ipv6Addr → Bool
seven_zeros ip =
    ip.s0 == 0 && ip.s1 == 0 && ip.s2 == 0 && ip.s3 == 0 && ip.s4 == 0 && ip.s5 == 0 && ip.s6 == 0

-- `&` with the 16-bit mask whose low bits, as many as `low`, are clear.
abbrev mask_off : ℕ → ℕ → ℕ
mask_off low n = n - n % 2 ^ low

unfoldable pub to_ipv4_mapped : Ipv6Addr → Option Ipv4Addr
to_ipv4_mapped ip =
    if ip.s0 == 0 && ip.s1 == 0 && ip.s2 == 0 && ip.s3 == 0 && ip.s4 == 0 && ip.s5 == 65535
    then some (record { a = ip.s6 / 256; b = ip.s6 % 256; c = ip.s7 / 256; d = ip.s7 % 256 })
    else none

abbrev pub is_blocked_mapped : Option Ipv4Addr → Bool
is_blocked_mapped none = false
is_blocked_mapped (some ip) = is_blocked_v4 ip

unfoldable pub is_blocked_ip : IpAddr → Bool
is_blocked_ip (v4 ip) = is_blocked_v4 ip
is_blocked_ip (v6 ip) =
    seven_zeros ip && ip.s7 == 1
    || seven_zeros ip && ip.s7 == 0
    || mask_off 9 ip.s0 == 64512
    || mask_off 6 ip.s0 == 65152
    || is_blocked_mapped (to_ipv4_mapped ip)

abbrev is_blocked_parsed : Option IpAddr → Bool
is_blocked_parsed none = false
is_blocked_parsed (some ip) = is_blocked_ip ip

abbrev bare : String → String
bare host = trim_end_matches (λ c. c == b']') (trim_start_matches (λ c. c == b'[') host)

pub record CreateEndpointRequest : Type 0 where
  pub name : String
  pub provider : String
  pub secret : String
  pub target_url : String

abbrev pub non_empty : String → String → Result (Unit {0})
non_empty text problem = if is_empty text then err (bad_request problem) else ok tt

module _ (p : Parsers) where
  unfoldable pub is_blocked_host : String → Bool
  is_blocked_host host =
      eq_ignore_ascii_case (bare host) "localhost"
      || ends_with ".localhost" (bare host)
      || is_blocked_parsed (p.parse_ip (bare host))

  abbrev pub check_scheme : String → Result (Unit {0})
  check_scheme scheme =
      if scheme =? "http" || scheme =? "https"
      then ok tt
      else err (bad_request ("target_url scheme must be http or https, got " +++ scheme))

  abbrev pub check_host : String → Result (Unit {0})
  check_host host =
      if is_blocked_host host
      then err (
          bad_request (
            "target_url host " +++ host
            +++ " is not routable from the relay (loopback, private, or link-local address)"))
      else ok tt

  unfoldable pub validate_target_url : String → Result (Unit {0})
  validate_target_url raw = do
    url ← p.parse_url raw
    check_scheme url.scheme
    host ← ok_or (bad_request "target_url must have a host") url.host_str
    check_host host

  unfoldable pub validate_new_endpoint : CreateEndpointRequest → Result (Unit {0})
  validate_new_endpoint req = do
    non_empty (trim req.name) "name must not be empty"
    _ ← provider_from_str req.provider
    non_empty req.secret "secret must not be empty"
    validate_target_url req.target_url
