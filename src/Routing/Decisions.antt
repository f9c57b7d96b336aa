-- ===== src/Routing/Decisions.antt =====
-- src/internal/routing/plan.go: which action a plan gives to a host and to an address.
use mathlib.Core.List.{Mem, not-mem-nil, mem-cons, mem-append}
use mathlib.Core.List.Perm
use mathlib.Core.Logic.Or
use blacktemple_kn.Prelude.{
  ℕ, Bool, true, false, ◌||◌, ◌≡◌, ◌≢◌, refl, sym, ◌∙◌, List, [], ◌∷◌, any, none, Text, arith, All,
  subst, Bool-cases, inl, inr,
}
use blacktemple_kn.Netip.Addr.{
  Addr, v4, is_valid, prefix_contains, is_loopback, is_private, is_link_local_unicast, is_multicast,
}
use blacktemple_kn.Netip.Parse.{parse_addr}
use blacktemple_kn.Routing.Mode.{Action, direct, ok}
use blacktemple_kn.Routing.Match.{
  matches_ip, matches_ip_kind, matches_host, clean_host, is_limited_broadcast,
}
use blacktemple_kn.Routing.Rule.{Rule}
use blacktemple_kn.Routing.Builtin.{builtin_rules}
use blacktemple_kn.Routing.Plan.{
  Input, Plan, build, action_for_ip, action_for_clean, action_for_host,
}
use blacktemple_kn.Routing.Order.{Decides, by_rule, by_fallback, first_action-Decides}
use blacktemple_kn.Routing.Fresh.{enabled_rules}
use blacktemple_kn.Routing.Build.{build-IsPlanOf, normalize_all}

-- A plan of `Build` gives an address the action of a rule that matches it and that no other rule
-- which matches it is less than, by priority and then id; where no rule matches, the fallback.
pub action_for_ip-Decides :
    (input : Input) (p : Plan) (ip : Addr)
    → build input ≡ ok p
    → Decides (λ r. matches_ip r.match ip) p.fallback p.rules (action_for_ip p ip)
unfolding action_for_ip
action_for_ip-Decides input p ip h =
    first_action-Decides (λ r. matches_ip r.match ip) p.fallback p.rules
      (build-IsPlanOf input h).sorted

-- So too a host whose name, cleaned, is not empty and no address.
pub action_for_host-Decides :
    (input : Input) (p : Plan) (host : Text)
    → build input ≡ ok p
    → clean_host host ≢ []
    → parse_addr (clean_host host) ≡ none
    → Decides
        (λ r. matches_host r.match (clean_host host))
        p.fallback
        p.rules
        (action_for_host p host)
unfolding action_for_host
action_for_host-Decides input p host h = go (clean_host host)
  where
    go :
        (name : Text)
        → name ≢ []
        → parse_addr name ≡ none
        → Decides (λ r. matches_host r.match name) p.fallback p.rules (action_for_clean p name)
    go [] n e = absurd (n refl)
    go (c ∷ cs) n e =
        unfold action_for_clean in
        rw (e, action_for_clean)
          (first_action-Decides (λ r. matches_host r.match (c ∷ cs)) p.fallback p.rules
            (build-IsPlanOf input h).sorted)

builtin_direct : All (λ r. r.action ≡ direct) builtin_rules
unfolding builtin_rules
builtin_direct = ground arith

-- The addresses that are private, local, or no unicast.
abbrev pub is_special : Addr → Bool
is_special a =
    is_loopback a
    || is_private a
    || is_link_local_unicast a
    || is_multicast a
    || is_limited_broadcast a

builtin_covers :
    (n : ℕ) → is_special (v4 n) ≡ true → any (λ r. matches_ip r.match (v4 n)) builtin_rules ≡ true
unfolding builtin_rules matches_ip_kind is_valid prefix_contains is_loopback is_private
    is_link_local_unicast is_multicast is_limited_broadcast
builtin_covers n h = ground arith

All_of_mem {ℓ κ} :
    {A : Type ℓ} (P : A → Type κ) (is_prop : (a : A) → IsProp (P a)) (a : A) (xs : List A)
    → All P xs
    → Mem a xs
    → P a
All_of_mem P is_prop a [] h m = absurd (not-mem-nil m)
All_of_mem P is_prop a (x ∷ xs) h m =
    Or.elim (is_prop a) (mem-cons.0 m) (λ e. subst P (sym e) h.0) (All_of_mem P is_prop a xs h.1)

Action-set : IsSet Action
Action-set = hlevel

Bool-set : IsSet Bool
Bool-set = hlevel

any-mem :
    {A : Type 0} (hit : A → Bool) (xs : List A)
    → any hit xs ≡ true
    → (a : A) × Mem a xs × (hit a ≡ true)
any-mem hit [] h = cc
any-mem hit (x ∷ xs) h = elim (Bool-cases (hit x)) [
  | inl e ↦ (x, mem-cons.1 (Or.inl refl), e)
  | inr e ↦ let (a, m, t) = any-mem hit xs (ground arith) in (a, mem-cons.1 (Or.inr m), t)
]

-- A private, local, multicast or broadcast IPv4 address stays DIRECT in every mode, unless an
-- enabled rule of the input matches it.
pub special_stays_direct :
    (input : Input) (p : Plan) (all : List Rule) (n : ℕ)
    → build input ≡ ok p
    → normalize_all input.rules ≡ ok all
    → is_special (v4 n) ≡ true
    → All (λ r. matches_ip r.match (v4 n) ≡ false) (enabled_rules all)
    → action_for_ip p (v4 n) ≡ direct
special_stays_direct input p all n plan valid s other =
    elim (action_for_ip-Decides input p (v4 n) plan) [
      | by_rule r m h e least ↦
          e
          ∙ Or.elim (Action-set r.action direct)
              (mem-append.0 ((Perm.mem_iff (build-IsPlanOf input plan).contents).0 ∣ m ∣₁))
              (All_of_mem (λ x. x.action ≡ direct) (λ x. Action-set x.action direct) r builtin_rules
                builtin_direct)
              (λ k. absurd (
                let miss = misses r (enabled_rules (build-IsPlanOf input plan).all) none_else k in
                cc))
      | by_fallback q e ↦ absurd (
          let (r, m, hit) =
            any-mem (λ x. matches_ip x.match (v4 n)) builtin_rules (builtin_covers n s) in
          let inside =
            (Perm.mem_iff (build-IsPlanOf input plan).contents).1 (mem-append.1 (Or.inl m)) in
          let miss = misses r p.rules q inside in cc)
    ]
  where
    same : (build-IsPlanOf input plan).all ≡ all
    same = cc ((build-IsPlanOf input plan).normal)

    none_else :
        All (λ r. matches_ip r.match (v4 n) ≡ false) (enabled_rules (build-IsPlanOf input plan).all)
    none_else = rw same other

    misses :
        (r : Rule) (rs : List Rule)
        → All (λ x. matches_ip x.match (v4 n) ≡ false) rs
        → Mem r rs
        → matches_ip r.match (v4 n) ≡ false
    misses = All_of_mem (λ x. matches_ip x.match (v4 n) ≡ false) (λ x. Bool-set _ _)
