-- ===== src/Routing/Rule.antt =====
-- src/internal/routing/rule.go: routing rules.
use blacktemple_kn.Prelude.{Bool, not, if◌then◌else◌, Text, is_empty, ℤ, pos, int_eq, int_ltb}
use blacktemple_kn.Strings.{trim_space, text_lt}
use blacktemple_kn.Routing.Mode.{
  Action, Source, valid_action, valid_source, default_priority, Result, ok, invalid_rule, require,
  ◌>>=◌, ◌>>◌,
}
use blacktemple_kn.Routing.Match.{Match, normalize_match}

pub record Rule : Type 0 where
  pub id : Text
  pub source : Source
  pub priority : ℤ
  pub action : Action
  pub match : Match
  pub enabled : Bool

unfoldable pub with_priority : Rule → Rule
with_priority r =
    if int_eq r.priority (pos 0) then record r { priority = default_priority r.source } else r

unfoldable pub normalize : Rule → Result Rule
unfolding with_priority
normalize r = do
  let id = trim_space r.id
  require (not (is_empty id)) invalid_rule
  require (valid_source r.source) invalid_rule
  require (valid_action r.action) invalid_rule
  m ← normalize_match r.match
  ok (with_priority (record r { id = id; match = m }))

-- The order of the plan.
unfoldable pub less : Rule → Rule → Bool
less a b = if int_eq a.priority b.priority then text_lt a.id b.id else int_ltb a.priority b.priority
