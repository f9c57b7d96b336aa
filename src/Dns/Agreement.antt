-- ===== src/Dns/Agreement.antt =====
-- src/internal/dns: names are resolved the way that their traffic is routed.
use blacktemple_kn.Prelude.{
  some, none, false, All, ◌++◌, ap, Bool, true, ◌≡◌, refl, ◌⊎◌, inl, inr, List, [], ◌∷◌, map, Text,
  Bool-cases, Option-cases, Option, sym, subst,
}
use blacktemple_kn.Netip.Addr.{Addr}
use blacktemple_kn.Netip.Parse.{parse_addr}
use blacktemple_kn.Routing.Mode.{Action}
use blacktemple_kn.Routing.Match.{Match, is_private_or_local, matches_ip, matches_host, clean_host}
use blacktemple_kn.Routing.Plan.{
  Plan, first_action, action_for_ip, action_for_clean, action_for_host,
}
use blacktemple_kn.Routing.Rule
use blacktemple_kn.Dns.Plan.{
  Rule, Policy, ResolverKind, local, default_resolver, resolver_for_routing, build, first_resolver,
  resolver_for_clean, resolver_for,
}

-- The resolver of an action: through the proxy for PROXY, the direct one otherwise.
abbrev pub resolver_of : Action → ResolverKind
resolver_of Action.proxy = ResolverKind.proxied
resolver_of _ = ResolverKind.direct

-- Does the match take the clean name, given the address that it reads as, if it is one?
abbrev pub takes_as : Text → Option Addr → Match → Bool
takes_as name (some ip) m = matches_ip m ip
takes_as name none m = matches_host m name

abbrev pub takes : Text → Match → Bool
takes [] m = false
takes (c ∷ cs) m = takes_as (c ∷ cs) (parse_addr (c ∷ cs)) m

none_taken : (rs : List Rule.Rule) → All (λ r. takes [] r.match ≡ false) rs
none_taken [] = tt
none_taken (r ∷ rs) = (refl, none_taken rs)

-- The resolver that the first rule that `hit` accepts stands for: the local one where the rule is
-- for private or local names, else that of its action. Where there is no such rule, it is the one of
-- the fallback.
abbrev pub Agrees : (Match → Bool) → Action → List Rule.Rule → Action → ResolverKind → Type 0
Agrees hit fallback rs a k =
    ((All (λ r. hit r.match ≡ false) rs) × (a ≡ fallback) × (k ≡ resolver_of fallback))
    ⊎ ((before : List Rule.Rule) × (r : Rule.Rule) × (behind : List Rule.Rule) × (rs
          ≡ before ++ r ∷ behind)
        × All (λ q. hit q.match ≡ false) before
        × (hit r.match ≡ true)
        × (a ≡ r.action)
        × (((is_private_or_local r.match ≡ true) × (k ≡ local))
            ⊎ ((is_private_or_local r.match ≡ false) × (k ≡ resolver_of r.action))))

default_resolver_lem : (a : Action) → default_resolver a ≡ resolver_of a
unfolding default_resolver
default_resolver_lem Action.proxy = refl
default_resolver_lem Action.direct = refl
default_resolver_lem Action.block = refl
default_resolver_lem (Action.other t) = refl

later :
    (hit : Match → Bool) (fallback : Action) (r : Rule.Rule) (rs : List Rule.Rule) (a : Action)
    (k : ResolverKind)
    → hit r.match ≡ false
    → Agrees hit fallback rs a k
    → Agrees hit fallback (r ∷ rs) a k
later hit fallback r rs a k n (inl (none_hit, e, f)) = inl ((n, none_hit), e, f)
later hit fallback r rs a k n (inr (before, q, behind, e, missed, took, acts, k_is)) =
    inr (r ∷ before, q, behind, ap (λ t. r ∷ t) e, (n, missed), took, acts, k_is)

abbrev dns_rule : Rule.Rule → Rule
dns_rule r = record {
  id = r.id;
  priority = r.priority;
  match = r.match;
  resolver = resolver_for_routing r.action r.match;
}

first-Agrees :
    (hit : Match → Bool) (fallback : Action) (rs : List Rule.Rule)
    → Agrees hit fallback rs
        (first_action (λ r. hit r.match) fallback rs)
        (first_resolver (λ r. hit r.match) (default_resolver fallback) (map dns_rule rs))
unfolding first_action first_resolver resolver_for_routing
first-Agrees hit fallback [] = inl (tt, refl, default_resolver_lem fallback)
first-Agrees hit fallback (r ∷ rs) = elim (Bool-cases (hit r.match)) [
  | inl e ↦ elim (Bool-cases (is_private_or_local r.match)) [
    | inl l ↦
        rw (first_action, first_resolver, e, l) (inr ([], r, rs, refl, tt, e, refl, inl (l, refl)))
    | inr l ↦
        rw (first_action, first_resolver, e, l)
          (inr ([], r, rs, refl, tt, e, refl, inr (l, default_resolver_lem r.action)))
  ]
  | inr e ↦
      subst (λ a. Agrees hit fallback (r ∷ rs) a (resolved (r ∷ rs)))
        (sym (unfold first_action in rw (first_action, e) refl))
        (subst (λ k. Agrees hit fallback (r ∷ rs) (acted rs) k)
          (sym (unfold first_resolver in rw (first_resolver, e) refl))
          (later hit fallback r rs (acted rs) (resolved rs) e (first-Agrees hit fallback rs)))
]
  where
    acted : List Rule.Rule → Action
    acted = first_action (λ r. hit r.match) fallback

    resolved : List Rule.Rule → ResolverKind
    resolved rs = first_resolver (λ r. hit r.match) (default_resolver fallback) (map dns_rule rs)

clean-Agrees :
    (p : Plan) (pol : Policy) (name : Text)
    → Agrees
        (takes name)
        p.fallback
        p.rules
        (action_for_clean p name)
        (resolver_for_clean (build p pol) name)
unfolding action_for_clean resolver_for_clean build action_for_ip
clean-Agrees p pol [] = inl (none_taken p.rules, refl, default_resolver_lem p.fallback)
clean-Agrees p pol (c ∷ cs) =
    let name = c ∷ cs in
    elim (Option-cases (parse_addr name)) [
      | inl e ↦ known none e (
          rw (action_for_clean, resolver_for_clean, e)
            (first-Agrees (takes_as name none) p.fallback p.rules))
      | inr (ip, e) ↦ known (some ip) e (
          rw (action_for_clean, resolver_for_clean, e)
            (first-Agrees (takes_as name (some ip)) p.fallback p.rules))
    ]
  where
    Found : (Match → Bool) → Type 0
    Found hit =
        Agrees hit p.fallback p.rules (action_for_clean p (c ∷ cs))
          (resolver_for_clean (build p pol) (c ∷ cs))

    known :
        (o : Option Addr)
        → parse_addr (c ∷ cs) ≡ o
        → Found (takes_as (c ∷ cs) o)
        → Found (takes (c ∷ cs))
    known o e found = subst (λ q. Found (takes_as (c ∷ cs) q)) (sym e) found

-- The DNS plan of a routing plan picks a host's resolver by the rule that decides its traffic. Where a
-- first rule takes the host, the traffic follows its action, and the resolver is the local one if the
-- rule is for private or local names, and else the one of the action, the proxy's for PROXY and the
-- direct one otherwise. Where no rule does, both follow the fallback. The empty name matches no rule.
pub resolver_for-Agrees :
    (p : Plan) (pol : Policy) (host : Text)
    → Agrees
        (takes (clean_host host))
        p.fallback
        p.rules
        (action_for_host p host)
        (resolver_for (build p pol) host)
unfolding action_for_host resolver_for
resolver_for-Agrees p pol host = clean-Agrees p pol (clean_host host)
