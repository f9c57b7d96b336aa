-- ===== src/Routing/Match.antt =====
-- src/internal/routing/match.go: what a rule matches.
use blacktemple_kn.Prelude.{
  Bool, true, false, ◌&&◌, ◌||◌, if◌then◌else◌, none, some, [], ◌∷◌, ◌++◌, Text, codes, text_eq,
  is_empty, ◌==◌,
}
use blacktemple_kn.Strings.{to_lower, trim_space, trim_suffix, has_prefix, has_suffix, after_prefix}
use blacktemple_kn.Netip.Addr.{
  Addr, v4, Prefix, is_valid, prefix_addr, masked, prefix_contains, is_loopback, is_private,
  is_link_local_unicast, is_multicast,
}
use blacktemple_kn.Netip.Parse.{parse_addr, parse_prefix}
use blacktemple_kn.Netip.Format.{format_prefix}
use blacktemple_kn.Routing.Mode.{Result, ok, err, invalid_rule, require, ◌>>◌}

pub data MatchKind : Type 0 where
  domain full_domain suffix cidr geoip geosite protocol remote_list : MatchKind
  other : Text → MatchKind

-- The LAN device of a match is not read by the planner, and left out.
pub record Match : Type 0 where
  pub kind : MatchKind
  pub value : Text
  pub prefix : Prefix

unfoldable pub valid_kind : MatchKind → Bool
valid_kind (other t) = false
valid_kind _ = true

unfoldable pub strip_ref_prefix : Text → Text → Text
strip_ref_prefix v p = elim (after_prefix v p) [ none ↦ v | some rest ↦ trim_space rest ]

-- The value must not be empty.
unfoldable pub non_empty : Match → Result Match
non_empty m = if is_empty m.value then err invalid_rule else ok m

unfoldable pub normalize_cidr : Match → Result Match
normalize_cidr m = do
  let p = (if is_valid m.prefix then m.prefix else parse_prefix m.value)
  require (is_valid p) invalid_rule
  ok (record m { prefix = masked p; value = format_prefix (masked p) })

-- `normalize`, on a match whose value is trimmed.
unfoldable pub normalize_kind : MatchKind → Match → Result Match
unfolding non_empty strip_ref_prefix normalize_cidr
normalize_kind cidr m = normalize_cidr m
normalize_kind domain m =
    non_empty (record m { value = to_lower (trim_suffix m.value (codes ".")) })
normalize_kind full_domain m =
    non_empty (record m { value = to_lower (trim_suffix m.value (codes ".")) })
normalize_kind suffix m =
    non_empty (record m { value = to_lower (trim_suffix m.value (codes ".")) })
normalize_kind geoip m =
    non_empty (record m { value = strip_ref_prefix (to_lower m.value) (codes "geoip:") })
normalize_kind geosite m =
    non_empty (record m { value = strip_ref_prefix (to_lower m.value) (codes "geosite:") })
normalize_kind protocol m = non_empty (record m { value = to_lower m.value })
normalize_kind remote_list m = non_empty m
normalize_kind (other t) m = ok m

unfoldable pub normalize_match : Match → Result Match
unfolding normalize_kind valid_kind
normalize_match m = do
  require (valid_kind m.kind) invalid_rule
  normalize_kind m.kind (record m { value = trim_space m.value })

unfoldable pub geo_reference : MatchKind → Text → Text
geo_reference geoip v = if is_empty v then [] else codes "geoip:" ++ v
geo_reference geosite v = if is_empty v then [] else codes "geosite:" ++ v
geo_reference _ v = []

unfoldable pub is_limited_broadcast : Addr → Bool
is_limited_broadcast (v4 n) = n == 0xffffffff
is_limited_broadcast _ = false

unfoldable pub prefix_is_private_or_local : Prefix → Bool
unfolding is_limited_broadcast
prefix_is_private_or_local p =
    let a = prefix_addr p in
    is_loopback a
    || is_private a
    || is_link_local_unicast a
    || is_multicast a
    || is_limited_broadcast a

-- The first argument is the kind of the match.
unfoldable pub private_or_local : MatchKind → Match → Bool
unfolding prefix_is_private_or_local
private_or_local cidr m = is_valid m.prefix && prefix_is_private_or_local m.prefix
private_or_local full_domain m = text_eq m.value (codes "localhost")
private_or_local domain m = text_eq m.value (codes "localhost")
private_or_local suffix m = text_eq m.value (codes "localhost")
private_or_local _ m = false

abbrev pub is_private_or_local : Match → Bool
is_private_or_local m = private_or_local m.kind m

unfoldable pub matches_ip_kind : MatchKind → Match → Addr → Bool
matches_ip_kind cidr m ip = is_valid m.prefix && prefix_contains m.prefix ip
matches_ip_kind _ m ip = false

abbrev pub matches_ip : Match → Addr → Bool
matches_ip m ip = matches_ip_kind m.kind m ip

-- The `switch` of `MatchesHost`, on a host name that is no address.
unfoldable pub matches_name : MatchKind → Text → Text → Bool
matches_name full_domain v host = text_eq host v
matches_name domain v host = text_eq host v || has_suffix host (b'.' ∷ v)
matches_name suffix v host =
    text_eq host v
    || (if has_prefix v (codes ".") then has_suffix host v else has_suffix host (b'.' ∷ v))
matches_name _ v host = false

-- Lower case, without space around it and without one dot at the end.
unfoldable pub clean_host : Text → Text
clean_host host = to_lower (trim_suffix (trim_space host) (codes "."))

unfoldable pub matches_clean : Match → Text → Bool
unfolding matches_name matches_ip_kind
matches_clean m [] = false
matches_clean m (c ∷ cs) = elim (parse_addr (c ∷ cs)) [
  | some ip ↦ matches_ip m ip
  | none ↦ matches_name m.kind m.value (c ∷ cs)
]

unfoldable pub matches_host : Match → Text → Bool
unfolding matches_clean
matches_host m host = matches_clean m (clean_host host)
