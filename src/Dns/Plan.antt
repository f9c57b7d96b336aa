-- ===== src/Dns/Plan.antt =====
-- src/internal/dns: the DNS plan that follows from a routing plan (policy.go, plan.go).
use blacktemple_kn.Prelude.{Bool, if◌then◌else◌, none, some, List, [], ◌∷◌, map, Text, ℤ}
use blacktemple_kn.Netip.Parse.{parse_addr}
use blacktemple_kn.Routing.Mode.{Action, proxy}
use blacktemple_kn.Routing.Match.{Match, is_private_or_local, matches_ip, matches_host, clean_host}
use blacktemple_kn.Routing.Plan

-- `unset` is the empty string, and `other` any other text.
pub data ResolverKind : Type 0 where
  local direct proxied fakedns unset : ResolverKind
  other : Text → ResolverKind

pub record Endpoint : Type 0 where
  pub kind : ResolverKind
  pub address : Text

pub record Policy : Type 0 where
  pub direct_dns : Endpoint
  pub proxy_dns : Endpoint
  pub local_dns : Endpoint
  pub fake_dns : Bool
  pub split_dns : Bool

pub record Rule : Type 0 where
  pub id : Text
  pub priority : ℤ
  pub match : Match
  pub resolver : ResolverKind

pub record DnsPlan : Type 0 where
  pub split_dns : Bool
  pub fake_dns : Bool
  pub rules : List Rule
  pub default : ResolverKind

-- `defaultResolver`
unfoldable pub default_resolver : Action → ResolverKind
default_resolver proxy = proxied
default_resolver _ = direct

unfoldable pub resolver_for_routing : Action → Match → ResolverKind
unfolding default_resolver
resolver_for_routing a m = if is_private_or_local m then local else default_resolver a

-- The endpoints of the policy that are filled in here are not part of the plan.
unfoldable pub build : Plan.Plan → Policy → DnsPlan
unfolding resolver_for_routing default_resolver
build rt pol = record {
  split_dns = pol.split_dns;
  fake_dns = pol.fake_dns;
  rules =
      map
        (λ r. record {
          id = r.id;
          priority = r.priority;
          match = r.match;
          resolver = resolver_for_routing r.action r.match;
        })
        rt.rules;
  default = default_resolver rt.fallback;
}

-- The resolver of the first rule that matches.
unfoldable pub first_resolver : (Rule → Bool) → ResolverKind → List Rule → ResolverKind
first_resolver hit default [] = default
first_resolver hit default (r ∷ rs) = if hit r then r.resolver else first_resolver hit default rs

unfoldable pub resolver_for_clean : DnsPlan → Text → ResolverKind
unfolding first_resolver
resolver_for_clean p [] = p.default
resolver_for_clean p (c ∷ cs) = elim (parse_addr (c ∷ cs)) [
  | some ip ↦ first_resolver (λ r. matches_ip r.match ip) p.default p.rules
  | none ↦ first_resolver (λ r. matches_host r.match (c ∷ cs)) p.default p.rules
]

unfoldable pub resolver_for : DnsPlan → Text → ResolverKind
unfolding resolver_for_clean
resolver_for p name = resolver_for_clean p (clean_host name)
