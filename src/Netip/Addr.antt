-- ===== src/Netip/Addr.antt =====
-- Go's package net/netip: addresses and prefixes as numbers, and the tests that routing makes.
use blacktemple_kn.Prelude.{
  ℕ, ◌-◌, ◌*◌, ◌/◌, ◌%◌, ◌^◌, ◌==◌, leb, Bool, true, false, ◌&&◌, ◌||◌, if◌then◌else◌, [], Text,
  is_empty,
}

-- An IPv4 address is a number below 2^32, an IPv6 address one below 2^128 with a zone.
pub data Addr : Type 0 where
  zero_addr : Addr
  v4 : ℕ → Addr
  v6 : ℕ → Text → Addr

-- `unset` is the zero Prefix, which is not valid.
pub data Prefix : Type 0 where
  unset : Prefix
  prefix : Addr → ℕ → Prefix

unfoldable pub is_valid_addr : Addr → Bool
is_valid_addr zero_addr = false
is_valid_addr _ = true

unfoldable pub is_4 : Addr → Bool
is_4 (v4 n) = true
is_4 _ = false

-- An IPv4 address inside ::ffff:0:0/96
unfoldable pub is_4_in_6 : ℕ → Bool
is_4_in_6 n = n / 2 ^ 32 == 0xffff

unfoldable pub is_unspecified : Addr → Bool
is_unspecified zero_addr = false
is_unspecified (v4 n) = n == 0
is_unspecified (v6 n zone) = n == 0 && is_empty zone

loopback_4 : ℕ → Bool
loopback_4 n = n / 2 ^ 24 == 127

private_4 : ℕ → Bool
private_4 n = n / 2 ^ 24 == 10 || n / 2 ^ 20 == 0xac1 || n / 2 ^ 16 == 0xc0a8

link_local_4 : ℕ → Bool
link_local_4 n = n / 2 ^ 16 == 0xa9fe

multicast_4 : ℕ → Bool
multicast_4 n = n / 2 ^ 28 == 0xe

-- An IPv4 address inside an IPv6 one is tested as the IPv4 address.
unfoldable pub is_loopback : Addr → Bool
unfolding loopback_4 is_4_in_6
is_loopback zero_addr = false
is_loopback (v4 n) = loopback_4 n
is_loopback (v6 n zone) = if is_4_in_6 n then loopback_4 (n % 2 ^ 32) else n == 1

unfoldable pub is_private : Addr → Bool
unfolding private_4 is_4_in_6
is_private zero_addr = false
is_private (v4 n) = private_4 n
is_private (v6 n zone) = if is_4_in_6 n then private_4 (n % 2 ^ 32) else n / 2 ^ 121 == 0x7e

unfoldable pub is_link_local_unicast : Addr → Bool
unfolding link_local_4 is_4_in_6
is_link_local_unicast zero_addr = false
is_link_local_unicast (v4 n) = link_local_4 n
is_link_local_unicast (v6 n zone) =
    if is_4_in_6 n then link_local_4 (n % 2 ^ 32) else n / 2 ^ 118 == 0x3fa

unfoldable pub is_multicast : Addr → Bool
unfolding multicast_4 is_4_in_6
is_multicast zero_addr = false
is_multicast (v4 n) = multicast_4 n
is_multicast (v6 n zone) = if is_4_in_6 n then multicast_4 (n % 2 ^ 32) else n / 2 ^ 120 == 0xff

unfoldable pub prefix_addr : Prefix → Addr
prefix_addr unset = zero_addr
prefix_addr (prefix a bits) = a

unfoldable pub is_valid : Prefix → Bool
is_valid unset = false
is_valid (prefix a bits) = true

-- `PrefixFrom`: a zone is dropped, and a length out of range gives no valid prefix.
unfoldable pub prefix_from : Addr → ℕ → Prefix
prefix_from zero_addr bits = unset
prefix_from (v4 n) bits = if leb bits 32 then prefix (v4 n) bits else unset
prefix_from (v6 n zone) bits = if leb bits 128 then prefix (v6 n []) bits else unset

-- `n` with all but its first `bits` of `width` bits cleared
abbrev pub mask : ℕ → ℕ → ℕ → ℕ
mask width bits n = n / 2 ^ (width - bits) * 2 ^ (width - bits)

unfoldable pub masked : Prefix → Prefix
masked unset = unset
masked (prefix zero_addr bits) = unset
masked (prefix (v4 n) bits) = prefix (v4 (mask 32 bits n)) bits
masked (prefix (v6 n zone) bits) = prefix (v6 (mask 128 bits n) zone) bits

-- Both addresses are of one family, no zone, and agree in the first `bits` bits.
unfoldable pub prefix_contains : Prefix → Addr → Bool
prefix_contains (prefix (v4 n) bits) (v4 m) = n / 2 ^ (32 - bits) == m / 2 ^ (32 - bits)
prefix_contains (prefix (v6 n zone) bits) (v6 m zone') =
    is_empty zone' && n / 2 ^ (128 - bits) == m / 2 ^ (128 - bits)
prefix_contains _ _ = false
