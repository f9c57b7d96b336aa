-- ===== src/Routing/Builtin.antt =====
-- src/internal/routing/builtin.go: the rules that every plan has.
use blacktemple_kn.Prelude.{
  pos, ℕ, suc, leb, true, ◌&&◌, ◌||◌, if◌then◌else◌, List, [], ◌∷◌, ◌++◌, map, keep, Text, codes,
}
use blacktemple_kn.Strings.Decimal.{itoa, decimal, decimal_loop}
use blacktemple_kn.Netip.Addr.{Prefix, unset, is_valid, is_4, prefix_addr, masked}
use blacktemple_kn.Netip.Parse.{parse_prefix}
use blacktemple_kn.Netip.Format.{format_prefix}
use blacktemple_kn.Routing.Mode.{Mode, all, Action, proxy, direct, builtin, priority_builtin_smart}
use blacktemple_kn.Routing.Match.{cidr, full_domain, is_limited_broadcast}
use blacktemple_kn.Routing.Rule.{Rule}

abbrev pub private_cidrs : List Text
private_cidrs =
    codes "10.0.0.0/8"
    ∷ codes "172.16.0.0/12"
    ∷ codes "192.168.0.0/16"
    ∷ codes "169.254.0.0/16"
    ∷ codes "fc00::/7"
    ∷ codes "fe80::/10"
    ∷ []

abbrev pub localhost_cidrs : List Text
localhost_cidrs = codes "127.0.0.0/8" ∷ codes "::1/128" ∷ []

abbrev pub multicast_broadcast_cidrs : List Text
multicast_broadcast_cidrs = codes "224.0.0.0/4" ∷ codes "255.255.255.255/32" ∷ codes "ff00::/8" ∷ []

-- The local `parsePrefix`: masked, and `unset` on an error.
unfoldable pub local_prefix : Text → Prefix
unfolding parse_prefix masked
local_prefix t = masked (parse_prefix t)

unfoldable pub builtin_direct_prefixes : List Prefix
unfolding local_prefix is_valid
builtin_direct_prefixes =
    keep is_valid (map local_prefix private_cidrs)
    ++ (keep is_valid (map local_prefix localhost_cidrs)
        ++ keep is_valid (map local_prefix multicast_broadcast_cidrs))

unfoldable pub ipv4_direct_prefixes : List Prefix
unfolding builtin_direct_prefixes is_4 prefix_addr
ipv4_direct_prefixes = keep (λ p. is_4 (prefix_addr p)) builtin_direct_prefixes

unfoldable pub sanitize_char : ℕ → ℕ
sanitize_char c =
    if (leb b'a' c && leb c b'z') || (leb b'A' c && leb c b'Z') || (leb b'0' c && leb c b'9')
    then c
    else b'-'

unfoldable pub sanitize_id : Text → Text
unfolding sanitize_char
sanitize_id = map sanitize_char

unfoldable pub builtin_id : Text → ℕ → Text → Text
unfolding itoa decimal decimal_loop sanitize_id
builtin_id group i suffix =
    codes "builtin-" ++ (group ++ (b'-' ∷ (itoa (pos i) ++ (b'-' ∷ sanitize_id suffix))))

unfoldable pub cidr_rule : Text → ℕ → Prefix → Rule
unfolding builtin_id format_prefix
cidr_rule group i p = record {
  id = builtin_id group i (format_prefix p);
  source = builtin;
  priority = priority_builtin_smart;
  action = direct;
  match = record { kind = cidr; value = format_prefix p; prefix = p };
  enabled = true;
}

-- The group of a prefix of the third list.
unfoldable pub multicast_group : Prefix → Text
unfolding is_limited_broadcast prefix_addr
multicast_group p =
    if is_limited_broadcast (prefix_addr p) then codes "broadcast" else codes "multicast"

-- The rules of one list, whose next index is `i`. A prefix that does not parse is passed over.
unfoldable pub cidr_rules : (Prefix → Text) → ℕ → List Text → List Rule
unfolding cidr_rule local_prefix is_valid
cidr_rules group i [] = []
cidr_rules group i (t ∷ ts) =
    let rest = cidr_rules group (suc i) ts in
    let p = local_prefix t in if is_valid p then cidr_rule (group p) i p ∷ rest else rest

unfoldable pub localhost_rule : Rule
localhost_rule = record {
  id = codes "builtin-localhost-name";
  source = builtin;
  priority = priority_builtin_smart;
  action = direct;
  match = record { kind = full_domain; value = codes "localhost"; prefix = unset };
  enabled = true;
}

unfoldable pub builtin_rules : List Rule
unfolding cidr_rules multicast_group localhost_rule
builtin_rules =
    cidr_rules (λ p. codes "private") 0 private_cidrs
    ++ (cidr_rules (λ p. codes "localhost") 0 localhost_cidrs
        ++ (cidr_rules multicast_group 0 multicast_broadcast_cidrs ++ (localhost_rule ∷ [])))

unfoldable pub reserved_builtin_ids : List Text
reserved_builtin_ids = map (λ r. r.id) builtin_rules ++ (codes "builtin-fallback" ∷ [])

unfoldable pub fallback_action : Mode → Action
fallback_action all = proxy
fallback_action _ = direct
