-- ===== src/Examples/Plans.antt =====
-- The theorems of routing, DNS and decimal texts at concrete inputs.
use blacktemple_kn.Prelude.{true, false, ◌≡◌, refl, [], ◌∷◌, ◌++◌, codes, pos, text_eq}
use blacktemple_kn.Netip.Addr.{v4, unset, is_loopback, is_private, prefix_contains}
use blacktemple_kn.Netip.Parse.{parse_addr}
use blacktemple_kn.Routing.Mode.{
  all, selected, proxy, direct, user, ok, priority_user_override, valid_mode, valid_source,
  valid_action, default_priority,
}
use blacktemple_kn.Routing.Match.{
  domain, matches_ip, matches_host, clean_host, normalize_match, matches_ip_kind, private_or_local,
}
use blacktemple_kn.Routing.Rule.{Rule, normalize, less}
use blacktemple_kn.Routing.Builtin.{builtin_rules, reserved_builtin_ids, fallback_action}
use blacktemple_kn.Routing.Plan.{
  Input, Plan, build, sort_stable, action_for_ip, action_for_host, action_for_clean, first_action,
}
use blacktemple_kn.Routing.Order.{Decides}
use blacktemple_kn.Routing.Build.{IsPlanOf, build-IsPlanOf, normalize_all}
use blacktemple_kn.Routing.Decisions.{
  action_for_ip-Decides, action_for_host-Decides, special_stays_direct,
}
use blacktemple_kn.Dns.Plan.{Policy, ResolverKind, resolver_for, build as dns_build}
use blacktemple_kn.Dns.Agreement.{Agrees, takes, resolver_for-Agrees}
use blacktemple_kn.Strings.{trim_space, to_lower, trim_suffix, has_suffix, text_lt}

abbrev raw_rule : Rule
raw_rule = record {
  id = codes " yt ";
  source = user;
  priority = pos 0;
  action = proxy;
  match = record { kind = domain; value = codes "YouTube.com."; prefix = unset };
  enabled = true;
}

abbrev input : Input
input = record { mode = selected; rules = raw_rule ∷ []; block_quic = true }

abbrev rule : Rule
rule = record {
  id = codes "yt";
  source = user;
  priority = priority_user_override;
  action = proxy;
  match = record { kind = domain; value = codes "youtube.com"; prefix = unset };
  enabled = true;
}

abbrev plan : Plan
plan = record {
  mode = selected;
  rules = sort_stable (builtin_rules ++ rule ∷ []);
  block_quic = true;
  fail_open = true;
  fallback = direct;
}

built : build input ≡ ok plan
unfolding build valid_mode normalize trim_space valid_source valid_action normalize_match to_lower
    trim_suffix reserved_builtin_ids builtin_rules text_eq default_priority fallback_action
built = refl

build-IsPlanOf_example : IsPlanOf input plan
build-IsPlanOf_example = build-IsPlanOf input built

action_for_ip-Decides_example :
    Decides
      (λ r. matches_ip r.match (v4 0x0a000001))
      direct
      plan.rules
      (action_for_ip plan (v4 0x0a000001))
action_for_ip-Decides_example = action_for_ip-Decides input plan (v4 0x0a000001) built

action_for_host-Decides_example :
    Decides
      (λ r. matches_host r.match (clean_host (codes "www.youtube.com")))
      direct
      plan.rules
      (action_for_host plan (codes "www.youtube.com"))
unfolding clean_host to_lower trim_suffix trim_space parse_addr
action_for_host-Decides_example =
    action_for_host-Decides input plan (codes "www.youtube.com") built (λ e. cc) refl

youtube_is_proxied : action_for_host plan (codes "www.youtube.com") ≡ proxy
unfolding action_for_host action_for_clean clean_host to_lower trim_suffix trim_space parse_addr
    first_action sort_stable builtin_rules less matches_host text_eq has_suffix
youtube_is_proxied = refl

abbrev bare : Input
bare = record { mode = all; rules = []; block_quic = false }

abbrev bare_plan : Plan
bare_plan = record {
  mode = all;
  rules = sort_stable (builtin_rules ++ []);
  block_quic = false;
  fail_open = true;
  fallback = proxy;
}

bare_built : build bare ≡ ok bare_plan
unfolding build valid_mode fallback_action
bare_built = refl

special_stays_direct_example : action_for_ip bare_plan (v4 0xc0a80101) ≡ direct
unfolding normalize_all is_loopback is_private
special_stays_direct_example =
    special_stays_direct bare bare_plan [] 0xc0a80101 bare_built refl refl tt

abbrev resolvers : Policy
resolvers = record {
  direct_dns = record { kind = ResolverKind.direct; address = [] };
  proxy_dns = record { kind = ResolverKind.proxied; address = [] };
  local_dns = record { kind = ResolverKind.local; address = [] };
  fake_dns = false;
  split_dns = true;
}

resolver_for-Agrees_example :
    Agrees
      (takes (clean_host (codes "192.168.1.1")))
      plan.fallback
      plan.rules
      (action_for_host plan (codes "192.168.1.1"))
      (resolver_for (dns_build plan resolvers) (codes "192.168.1.1"))
resolver_for-Agrees_example = resolver_for-Agrees plan resolvers (codes "192.168.1.1")

lan_is_local : resolver_for (dns_build plan resolvers) (codes "192.168.1.1") ≡ ResolverKind.local
unfolding resolver_for clean_host to_lower trim_suffix trim_space parse_addr dns_build sort_stable
    builtin_rules less matches_ip_kind text_lt prefix_contains private_or_local is_loopback
    is_private
lan_is_local = refl
