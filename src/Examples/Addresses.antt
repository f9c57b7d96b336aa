-- ===== src/Examples/Addresses.antt =====
-- Addresses and prefixes on concrete texts.
use blacktemple_kn.Prelude.{◌≡◌, refl, codes, ◌*◌, ◌^◌, [], ◌∷◌}
use blacktemple_kn.Strings.{fields, trim_space}
use blacktemple_kn.Netip.Addr.{prefix, v4, v6, unset, masked}
use blacktemple_kn.Netip.Parse.{parse_prefix}
use blacktemple_kn.Netip.Format.{format_prefix}

parse_private : parse_prefix (codes "172.16.0.0/12") ≡ prefix (v4 0xac100000) 12
unfolding parse_prefix
parse_private = refl

parse_unique_local : parse_prefix (codes "fc00::/7") ≡ prefix (v6 (0xfc * 2 ^ 120) []) 7
unfolding parse_prefix
parse_unique_local = refl

parse_mapped :
    format_prefix (parse_prefix (codes "::FFFF:1.2.3.4/128")) ≡ codes "::ffff:1.2.3.4/128"
unfolding parse_prefix format_prefix
parse_mapped = refl

parse_middle :
    format_prefix (masked (parse_prefix (codes "2001:DB8:0:0:1::7/64"))) ≡ codes "2001:db8::/64"
unfolding parse_prefix format_prefix masked
parse_middle = refl

parse_runs : format_prefix (parse_prefix (codes "1:0:0:2:0:0:0:3/128")) ≡ codes "1:0:0:2::3/128"
unfolding parse_prefix format_prefix
parse_runs = refl

parse_bad_octet : parse_prefix (codes "10.0.0.256/8") ≡ unset
unfolding parse_prefix
parse_bad_octet = refl

parse_leading_zero : parse_prefix (codes "10.0.0.1/08") ≡ unset
unfolding parse_prefix
parse_leading_zero = refl

trims : trim_space (codes " a b ") ≡ codes "a b"
unfolding trim_space
trims = refl

splits : fields (codes " -A  PRE x") ≡ codes "-A" ∷ codes "PRE" ∷ codes "x" ∷ []
unfolding fields
splits = refl
