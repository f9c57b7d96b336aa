-- ===== src/Supervisor/Record.antt =====
-- src/internal/supervisor: the fields of `Supervisor` (supervisor.go), the persisted snapshot
-- (store.go) and the helpers whose names end in Locked.
use blacktemple_kn.Prelude.{
  ℕ, suc, ◌+◌, Bool, true, false, ◌||◌, if◌then◌else◌, leb, Option, none, some, List, [], ◌++◌,
  keep, ℤ, nonpositive, magnitude, Text, codes,
}
use blacktemple_kn.Supervisor.States.{
  State, stopped, running, failed, state_text, same_state, can_transition,
}
use blacktemple_kn.Supervisor.Policy.{RestartPolicy}

pub record Snapshot : Type 0 where
  pub state : State
  pub pid : Option ℤ
  pub executable : Text
  pub version : Text
  pub started_at : Option ℕ
  pub last_exit : Option ℕ
  pub restart_count : ℕ
  pub last_error : Text

-- Clock readings are nanoseconds. The runner, the clock and the process table are not fields: what
-- they answer is an argument of the functions that ask them. `stored` is the content of the store,
-- a MemoryStore, and `backoff_cancel` and `watching` say that the fields are not nil.
pub record Supervisor (F : Type 0) : Type 0 where
  pub policy : RestartPolicy F
  pub state : State
  pub stop_requested : Bool
  pub gen : ℕ
  pub crashes : List ℕ
  pub backoff_cancel : Bool
  pub watching : Bool
  pub snap : Snapshot
  pub stored : Option Snapshot

pub record Identity : Type 0 where
  pub pid : ℤ
  pub executable : Text
  pub version : Text

abbrev pub empty_snapshot : Snapshot
empty_snapshot = record {
  state = stopped;
  pid = none;
  executable = [];
  version = [];
  started_at = none;
  last_exit = none;
  restart_count = 0;
  last_error = [];
}

pub invalid_transition : State → State → Text
invalid_transition from to =
    codes "invalid transition " ++ (state_text from ++ (codes " -> " ++ state_text to))

-- the `switch to` of `transitionLocked`
unfoldable pub stamp : ℕ → State → Snapshot → Snapshot
stamp now running sn = record sn { started_at = some now }
stamp now stopped sn = record sn { pid = none; started_at = none }
stamp now failed sn = record sn { pid = none; started_at = none }
stamp now _ sn = sn

module _ {F : Type 0} where
  unfoldable pub new : RestartPolicy F → Supervisor F
  new p = record {
    policy = p;
    state = stopped;
    stop_requested = false;
    gen = 0;
    crashes = [];
    backoff_cancel = false;
    watching = false;
    snap = empty_snapshot;
    stored = none;
  }

  unfoldable pub transition : ℕ → State → Supervisor F → Supervisor F
  unfolding same_state can_transition stamp
  transition now to s =
      let error : Text =
        (if same_state s.state to || can_transition s.state to
          then s.snap.last_error
          else invalid_transition s.state to) in
      record s {
        state = to;
        snap = stamp now to (record (s.snap) { state = to; last_error = error });
      }

  unfoldable pub persist : Supervisor F → Supervisor F
  persist s = record s { stored = some s.snap }

  unfoldable pub cancel_backoff : Supervisor F → Supervisor F
  cancel_backoff s = record s { backoff_cancel = false }

  -- `none`: the runner has no `Identity` method.
  unfoldable pub apply_identity : Option Identity → Supervisor F → Supervisor F
  apply_identity none s = s
  apply_identity (some i) s = record s {
    snap = record (s.snap) {
      pid = if nonpositive i.pid then s.snap.pid else some i.pid;
      executable = i.executable;
      version = i.version;
    };
  }

  unfoldable pub trim_crashes : ℕ → Supervisor F → Supervisor F
  trim_crashes now s =
      if nonpositive s.policy.window
      then s
      else record s { crashes = keep (λ t. leb now (t + magnitude s.policy.window)) s.crashes }

  -- The goroutine that is started waits for the child, and then calls `on_child_exit` with `gen`.
  unfoldable pub spawn_watch : Supervisor F → Supervisor F
  spawn_watch s = record s { gen = suc s.gen; watching = true }
