-- ===== src/Supervisor/Sequential.antt =====
-- src/internal/supervisor: `Start`, `Stop`, `Reload` (supervisor.go) and the restarts (restarts.go),
-- each from its first stretch to its last with no other operation between. Clock readings and the
-- answers of the runner are arguments.
use blacktemple_kn.Prelude.{ℕ, if◌then◌else◌, Option, none, some, Text}
use blacktemple_kn.Supervisor.Policy.{Floats}
use blacktemple_kn.Supervisor.Record.{Supervisor, Identity}
use blacktemple_kn.Supervisor.Regions.{
  Error, already_running, not_running, runner, cancelled, Next, finished, kill_child, has_child,
  start_begin, start_failed, start_end, start_abandoned, stop_begin, stop_end, reload_begin,
  reload_cancelled, on_child_exit,
}

-- What the runner answers: the error of `Start`, of `Stop`, and the identity of the child.
pub record Runner : Type 0 where
  pub start_error : Option Text
  pub stop_error : Option Text
  pub identity : Option Identity

abbrev runner_error : Option Text → Option Error
runner_error none = none
runner_error (some e) = some (runner e)

module _ {F : Type 0} where
  unfoldable pub start_finish : ℕ → Supervisor F × Next → Supervisor F
  start_finish now (s, finished) = s
  start_finish now (s, kill_child) = start_abandoned now s

  -- From the call of the runner on; `Reload` ends in the same way.
  unfoldable pub launch : ℕ → Runner → Supervisor F → Supervisor F × Option Error
  unfolding start_failed start_end start_finish start_abandoned
  launch now r s = elim r.start_error [
    | some e ↦ (start_failed now e s, some (runner e))
    | none ↦ (start_finish now (start_end now r.identity s), none)
  ]

  unfoldable pub start : ℕ → Runner → Supervisor F → Supervisor F × Option Error
  unfolding start_begin launch
  start now r s = elim (start_begin now s) [
    | none ↦ (s, some already_running)
    | some t ↦ launch now r t
  ]

  -- The runner is asked to stop the child only in a state that has one.
  unfoldable pub stop : ℕ → Runner → Supervisor F → Supervisor F × Option Error
  unfolding stop_begin stop_end has_child
  stop now r s = elim (stop_begin s) [
    | none ↦ (s, none)
    | some t ↦ (stop_end now t, if has_child t.state then runner_error r.stop_error else none)
  ]

  -- Only the child process is restarted.
  unfoldable pub restart_vpn : ℕ → Runner → Supervisor F → Supervisor F × Option Error
  unfolding start stop
  restart_vpn now r s =
      let (t, stop_error) = stop now r s in
      elim stop_error [ some e ↦ (t, some e) | none ↦ start now r t ]

-- What happens to the old child while `Reload` waits for it: it exits, or the context ends first.
pub data OldChild : Type 0 where
  exited : Option Text → OldChild
  context_over : Text → OldChild

module _ (fl : Floats) where
  -- The exit of the old child is seen under the generation of its own goroutine.
  unfoldable pub reload_running :
      ℕ → Runner → OldChild → ℕ → Supervisor fl.F → Supervisor fl.F × Option Error
  unfolding start_failed reload_cancelled on_child_exit launch
  reload_running now r old gen s = elim r.stop_error [
    | some e ↦ (start_failed now e s, some (runner e))
    | none ↦ elim old [
      | exited e ↦ launch now r (on_child_exit fl now gen e s).0
      | context_over e ↦ (reload_cancelled now s, some (cancelled e))
    ]
  ]

  unfoldable pub reload : ℕ → Runner → OldChild → Supervisor fl.F → Supervisor fl.F × Option Error
  unfolding reload_begin reload_running
  reload now r old s = elim (reload_begin now s) [
    | none ↦ (s, some not_running)
    | some t ↦ reload_running now r old s.gen t
  ]

-- `RestartManager` asks a hook, if there is one. A full restart tries both, and reports an error of
-- the child first.
pub data ManagerError : Type 0 where
  not_implemented full_incomplete : ManagerError
  hook : Text → ManagerError
  child : Error → ManagerError

unfoldable pub restart_manager : Option (Option Text) → Option ManagerError
restart_manager none = some not_implemented
restart_manager (some none) = none
restart_manager (some (some e)) = some (hook e)

unfoldable pub full_error : Option Error → Option ManagerError → Option ManagerError
full_error (some e) manager = some (child e)
full_error none (some not_implemented) = some full_incomplete
full_error none manager = manager

unfoldable pub restart_full :
    {F : Type 0}
    → ℕ
    → Runner
    → Option (Option Text)
    → Supervisor F
    → Supervisor F × Option ManagerError
unfolding restart_manager full_error
restart_full now r manager s =
    let (t, e) = restart_vpn now r s in (t, full_error e (restart_manager manager))
