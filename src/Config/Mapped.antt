-- ===== src/Config/Mapped.antt =====
-- An IPv4 address and the IPv6 address that it is mapped to.
use rln_companion.Base.{ℕ, ◌+◌, ◌*◌, ◌/◌, ◌%◌, ◌<◌, ◌≡◌, refl, arith}
use rln_companion.Config.Hosts.{V4, V6, private_ip, v4, v6}

-- `::ffff:a.b.c.d`
abbrev mapped : V4 → V6
mapped ip = record {
  s0 = 0;
  s1 = 0;
  s2 = 0;
  s3 = 0;
  s4 = 0;
  s5 = 65535;
  s6 = ip.a * 256 + ip.b;
  s7 = ip.c * 256 + ip.d;
}

div-pair : (x y : ℕ) → y < 256 → (x * 256 + y) / 256 ≡ x
div-pair x y h = omega arith

mod-pair : (x y : ℕ) → y < 256 → (x * 256 + y) % 256 ≡ y
mod-pair x y h = omega arith

-- An IPv4 address and the IPv6 address that it is mapped to are private together: neither way of writing
-- it gets a public address past the check.
private_ip-mapped : (ip : V4) → ip.b < 256 → private_ip (v6 (mapped ip)) ≡ private_ip (v4 ip)
unfolding private_ip
private_ip-mapped ip h = rw (div-pair ip.a ip.b h, mod-pair ip.a ip.b h) refl
