-- ===== src/Routing/Plan.antt =====
-- src/internal/routing/plan.go: from the rules of the user and of remote lists to a plan.
use blacktemple_kn.Prelude.{
  Bool, true, not, if◌then◌else◌, none, some, List, [], ◌∷◌, ◌++◌, any, Text, text_eq,
}
use blacktemple_kn.Netip.Addr.{Addr}
use blacktemple_kn.Netip.Parse.{parse_addr}
use blacktemple_kn.Routing.Mode.{
  Mode, Action, valid_mode, Result, ok, invalid_rule, duplicate_rule, require, ◌>>=◌, ◌>>◌,
}
use blacktemple_kn.Routing.Match.{matches_host, matches_ip, clean_host}
use blacktemple_kn.Routing.Rule.{Rule, normalize, less}
use blacktemple_kn.Routing.Builtin.{builtin_rules, reserved_builtin_ids, fallback_action}

pub record Input : Type 0 where
  pub mode : Mode
  pub rules : List Rule
  pub block_quic : Bool

pub record Plan : Type 0 where
  pub mode : Mode
  pub rules : List Rule
  pub block_quic : Bool
  pub fail_open : Bool
  pub fallback : Action

-- `_, dup := seen[id]`
unfoldable pub is_seen : Text → List Text → Bool
is_seen id = any (text_eq id)

-- The loop of `Build` over the extra rules: those that are enabled, normalised, in their order.
unfoldable pub collect : List Text → List Rule → Result (List Rule)
unfolding is_seen
collect seen [] = ok []
collect seen (raw ∷ raws) = do
  r ← normalize raw
  require (not (is_seen r.id seen)) duplicate_rule
  rest ← collect (r.id ∷ seen) raws
  ok (if r.enabled then r ∷ rest else rest)

-- `sort.SliceStable`: a rule goes before the first of those behind it that is not less.
unfoldable pub insert_stable : Rule → List Rule → List Rule
insert_stable r [] = r ∷ []
insert_stable r (x ∷ xs) = if less x r then x ∷ insert_stable r xs else r ∷ x ∷ xs

unfoldable pub sort_stable : List Rule → List Rule
unfolding insert_stable
sort_stable [] = []
sort_stable (r ∷ rs) = insert_stable r (sort_stable rs)

unfoldable pub build : Input → Result Plan
unfolding collect sort_stable
build input = do
  require (valid_mode input.mode) invalid_rule
  extra ← collect reserved_builtin_ids input.rules
  ok (record {
    mode = input.mode;
    rules = sort_stable (builtin_rules ++ extra);
    block_quic = input.block_quic;
    fail_open = true;
    fallback = fallback_action input.mode;
  })

-- The loops of `ActionForIP` and `ActionForHost`: the action of the first rule that matches.
unfoldable pub first_action : (Rule → Bool) → Action → List Rule → Action
first_action hit fallback [] = fallback
first_action hit fallback (r ∷ rs) = if hit r then r.action else first_action hit fallback rs

unfoldable pub action_for_ip : Plan → Addr → Action
action_for_ip p ip = first_action (λ r. matches_ip r.match ip) p.fallback p.rules

unfoldable pub action_for_clean : Plan → Text → Action
action_for_clean p [] = p.fallback
action_for_clean p (c ∷ cs) = elim (parse_addr (c ∷ cs)) [
  | some ip ↦ action_for_ip p ip
  | none ↦ first_action (λ r. matches_host r.match (c ∷ cs)) p.fallback p.rules
]

unfoldable pub action_for_host : Plan → Text → Action
action_for_host p host = action_for_clean p (clean_host host)
