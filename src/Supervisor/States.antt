-- ===== src/Supervisor/States.antt =====
-- src/internal/supervisor/state.go: the lifecycle states and the table of allowed transitions.
use blacktemple_kn.Prelude.{Bool, true, false, Text, codes, text_eq}

-- `State` is a string type: `raw` is any text that is none of the six constants.
pub data State : Type 0 where
  stopped starting running reloading failed backoff : State
  raw : Text → State

pub state_text : State → Text
state_text stopped = codes "STOPPED"
state_text starting = codes "STARTING"
state_text running = codes "RUNNING"
state_text reloading = codes "RELOADING"
state_text failed = codes "FAILED"
state_text backoff = codes "BACKOFF"
state_text (raw t) = t

unfoldable pub valid : State → Bool
valid (raw t) = false
valid _ = true

-- the map `allowedTransitions`
unfoldable pub allowed : State → State → Bool
allowed stopped starting = true
allowed starting running = true
allowed starting failed = true
allowed starting stopped = true
allowed running stopped = true
allowed running reloading = true
allowed running backoff = true
allowed running failed = true
allowed reloading running = true
allowed reloading failed = true
allowed reloading stopped = true
allowed reloading backoff = true
allowed backoff starting = true
allowed backoff stopped = true
allowed backoff failed = true
allowed failed starting = true
allowed failed stopped = true
allowed _ _ = false

-- `from == to`
unfoldable pub same_state : State → State → Bool
same_state stopped stopped = true
same_state starting starting = true
same_state running running = true
same_state reloading reloading = true
same_state failed failed = true
same_state backoff backoff = true
same_state (raw a) (raw b) = text_eq a b
same_state _ _ = false

unfoldable pub can_transition : State → State → Bool
unfolding same_state allowed
can_transition from to = elim (same_state from to) [ true ↦ true | false ↦ allowed from to ]
