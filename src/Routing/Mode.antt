-- ===== src/Routing/Mode.antt =====
-- src/internal/routing/mode.go: modes, actions, sources and the priority bands.
use blacktemple_kn.Prelude.{Bool, true, false, Text, codes, text_eq, ℤ, pos, if◌then◌else◌}
use blacktemple_kn.Strings.{to_lower, trim_space}

-- These are string types: `other` is a text that is none of the constants.
pub data Mode : Type 0 where
  smart all selected : Mode
  other : Text → Mode

pub data Action : Type 0 where
  proxy direct block : Action
  other : Text → Action

pub data Source : Type 0 where
  builtin user provider remote_list remote_policy : Source
  other : Text → Source

pub data Error : Type 0 where
  invalid_rule duplicate_rule : Error

pub data Result {ℓ} (A : Type ℓ) : Type ℓ where
  ok : A → Result A
  err : Error → Result A

-- The first error ends a chain.
infixl 5 ◌>>=◌ ◌>>◌
abbrev pub ◌>>=◌ {ℓ κ} :
    {Given : Type ℓ} {Wanted : Type κ} → Result Given → (Given → Result Wanted) → Result Wanted
err failed >>= next = err failed
ok value >>= next = next value

abbrev pub ◌>>◌ {ℓ} : {Wanted : Type ℓ} → Result (Unit {0}) → Result Wanted → Result Wanted
check >> rest = check >>= λ passed. rest

abbrev pub require : Bool → Error → Result (Unit {0})
require false failed = err failed
require true failed = ok tt

unfoldable pub valid_mode : Mode → Bool
valid_mode (Mode.other t) = false
valid_mode _ = true

unfoldable pub valid_action : Action → Bool
valid_action (Action.other t) = false
valid_action _ = true

unfoldable pub valid_source : Source → Bool
valid_source (Source.other t) = false
valid_source _ = true

-- The conversion `Mode(text)`
unfoldable pub mode_of : Text → Mode
mode_of t =
    if text_eq t (codes "smart")
    then smart
    else if text_eq t (codes "all")
    then all
    else if text_eq t (codes "selected")
    then selected
    else Mode.other t

unfoldable pub parse_mode : Text → Result Mode
unfolding mode_of valid_mode
parse_mode t = do
  let m = mode_of (to_lower (trim_space t))
  require (valid_mode m) invalid_rule
  ok m

-- A lower number wins.
abbrev pub priority_user_override : ℤ
priority_user_override = pos 100

abbrev pub priority_provider_policy : ℤ
priority_provider_policy = pos 300

abbrev pub priority_remote_policy : ℤ
priority_remote_policy = pos 350

abbrev pub priority_remote_list : ℤ
priority_remote_list = pos 400

abbrev pub priority_builtin_smart : ℤ
priority_builtin_smart = pos 500

abbrev pub priority_fallback : ℤ
priority_fallback = pos 900

unfoldable pub default_priority : Source → ℤ
default_priority user = priority_user_override
default_priority provider = priority_provider_policy
default_priority remote_policy = priority_remote_policy
default_priority remote_list = priority_remote_list
default_priority builtin = priority_builtin_smart
default_priority (Source.other t) = priority_fallback
