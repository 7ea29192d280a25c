-- ===== src/Config/Hosts.antt =====
-- is_private_host of config.rs, with the predicates of `std::net` that it calls. `parse::<IpAddr>` is a
-- parameter.
use Prim.Native.Char.{code}
use rln_companion.Api.Token.{is_empty}
use rln_companion.Base.{
  ℕ, ◌/◌, ◌%◌, String, Bool, false, not, ◌&&◌, ◌||◌, Option, none, some, leb, nat_eq, if◌then◌else◌,
  ◌==◌, Eq_String,
}

-- The octets of an IPv4 address.
pub record V4 : Type 0 where
  pub a : ℕ
  pub b : ℕ
  pub c : ℕ
  pub d : ℕ

-- The segments of an IPv6 address, of 16 bits each.
pub record V6 : Type 0 where
  pub s0 : ℕ
  pub s1 : ℕ
  pub s2 : ℕ
  pub s3 : ℕ
  pub s4 : ℕ
  pub s5 : ℕ
  pub s6 : ℕ
  pub s7 : ℕ

pub data IpAddr : Type 0 where
  v4 : V4 → IpAddr
  v6 : V6 → IpAddr

-- `Ipv4Addr::is_loopback`, `Ipv4Addr::is_private`
abbrev pub is_loopback_v4 : V4 → Bool
is_loopback_v4 ip = nat_eq ip.a 127

abbrev pub is_private_v4 : V4 → Bool
is_private_v4 ip =
    nat_eq ip.a 10
    || (nat_eq ip.a 172 && leb 16 ip.b && leb ip.b 31)
    || (nat_eq ip.a 192 && nat_eq ip.b 168)

-- The first segments are all zero.
abbrev leading_zeros : V6 → Bool
leading_zeros ip =
    nat_eq ip.s0 0 && nat_eq ip.s1 0 && nat_eq ip.s2 0 && nat_eq ip.s3 0 && nat_eq ip.s4 0

-- `Ipv6Addr::is_loopback`, `is_unique_local` (fc00::/7) and `is_unicast_link_local` (fe80::/10)
abbrev pub is_loopback_v6 : V6 → Bool
is_loopback_v6 ip = leading_zeros ip && nat_eq ip.s5 0 && nat_eq ip.s6 0 && nat_eq ip.s7 1

abbrev pub is_unique_local : V6 → Bool
is_unique_local ip = nat_eq (ip.s0 / 512) 126

abbrev pub is_unicast_link_local : V6 → Bool
is_unicast_link_local ip = nat_eq (ip.s0 / 64) 1018

-- `Ipv6Addr::to_ipv4_mapped` (::ffff:0:0/96)
abbrev pub to_ipv4_mapped : V6 → Option V4
to_ipv4_mapped ip =
    if leading_zeros ip && nat_eq ip.s5 65535
    then some (record { a = ip.s6 / 256; b = ip.s6 % 256; c = ip.s7 / 256; d = ip.s7 % 256 })
    else none

abbrev pub private_v4 : V4 → Bool
private_v4 ip = is_loopback_v4 ip || is_private_v4 ip

abbrev mapped_private : Option V4 → Bool
mapped_private none = false
mapped_private (some ip) = private_v4 ip

unfoldable pub private_ip : IpAddr → Bool
private_ip (v4 ip) = private_v4 ip
private_ip (v6 ip) =
    is_loopback_v6 ip
    || is_unique_local ip
    || is_unicast_link_local ip
    || mapped_private (to_ipv4_mapped ip)

-- `trim_start_matches` and `trim_end_matches` of one character
unfoldable pub trim_start_matches : ℕ → String → String
trim_start_matches k String.[] = ""
trim_start_matches k (String.◌∷◌ c s) =
    let rest = trim_start_matches k s in if nat_eq (code c) k then rest else String.◌∷◌ c s

unfoldable pub trim_end_matches : ℕ → String → String
trim_end_matches k String.[] = ""
trim_end_matches k (String.◌∷◌ c s) =
    let rest = trim_end_matches k s in
    if is_empty rest && nat_eq (code c) k then "" else String.◌∷◌ c rest

abbrev pub contains_char : ℕ → String → Bool
contains_char k String.[] = false
contains_char k (String.◌∷◌ c s) = nat_eq (code c) k || contains_char k s

module _ (parse_ip : String → Option IpAddr) where
  abbrev pub private_name : String → Bool
  private_name host = host == "localhost" || not (contains_char b'.' host)

  abbrev unbracketed : String → String
  unbracketed host = trim_end_matches b']' (trim_start_matches b'[' host)

  unfoldable pub is_private_host : String → Bool
  unfolding trim_start_matches trim_end_matches private_ip
  is_private_host host = elim (parse_ip (unbracketed host)) [
    | some ip ↦ private_ip ip
    | none ↦ private_name (unbracketed host)
  ]
