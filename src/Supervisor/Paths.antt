-- ===== src/Supervisor/Paths.antt =====
-- src/internal/supervisor: what `Start`, `Stop`, `Reload` and the restarts do, on every branch.
use blacktemple_kn.Prelude.{
  ℕ, suc, ◌<◌, ◌+◌, leb, true, false, ◌≡◌, ◌≢◌, Option, none, some, [], ◌∷◌, ◌++◌, arith, length,
  length-append, length-keep-le, magnitude, ◌-◌, pos, Text,
}
use blacktemple_kn.Supervisor.States.{State, stopped, starting, running, failed, backoff, valid}
use blacktemple_kn.Supervisor.Policy.{Floats, delay}
use blacktemple_kn.Supervisor.Record.{Supervisor, Identity, persist, transition}
use blacktemple_kn.Supervisor.Regions.{
  already_running, not_running, runner, on_child_exit, backoff_begin, backoff_end, has_child,
}
use blacktemple_kn.Supervisor.Sequential.{Runner, exited, start, stop, restart_vpn, reload}

-- The child runs, and is watched under a new generation.
pub record IsUp {F : Type 0} (now gen : ℕ) (t : Supervisor F) : Type 0 where
  pub up : t.state ≡ running
  pub no_error : t.snap.last_error ≡ []
  pub since : t.snap.started_at ≡ some now
  pub watched : t.gen ≡ suc gen
  pub wanted : t.stop_requested ≡ false

-- No child is known, and the error recorded is `e`.
pub record IsDown {F : Type 0} (down : State) (e : Text) (t : Supervisor F) : Type 0 where
  pub reached : t.state ≡ down
  pub error : t.snap.last_error ≡ e
  pub no_pid : t.snap.pid ≡ none
  pub no_start : t.snap.started_at ≡ none

module _ {F : Type 0} (now : ℕ) (r : Runner) (s : Supervisor F) where
  -- `Start` refuses a supervisor that has a child and leaves it alone. Otherwise it ends in RUNNING
  -- with no error, or, with the error `e` of the runner, in FAILED with that error and no other.
  pub start_lem :
      valid s.state ≡ true
      → (has_child s.state ≡ true → start now r s ≡ (s, some already_running))
        × (has_child s.state ≡ false
            → r.start_error ≡ none
            → IsUp now s.gen (start now r s).0 × ((start now r s).1 ≡ none))
        × ((e : Text)
            → has_child s.state ≡ false
            → r.start_error ≡ some e
            → IsDown failed e (start now r s).0 × ((start now r s).1 ≡ some (runner e)))
  unfolding start valid
  start_lem v = (ground arith, ground arith, λ e. ground arith)

  -- `Stop` ends in STOPPED on every branch, also if the runner reports an error. From a state other
  -- than STOPPED it takes a new generation, and it returns the error of the runner just where there
  -- was a child.
  pub stop_lem :
      valid s.state ≡ true
      → s.state ≢ stopped
      → IsDown stopped s.snap.last_error (stop now r s).0
        × ((stop now r s).0.gen ≡ suc s.gen)
        × ((stop now r s).0.stop_requested ≡ true)
        × (has_child s.state ≡ false → (stop now r s).1 ≡ none)
        × (has_child s.state ≡ true → r.stop_error ≡ none → (stop now r s).1 ≡ none)
        × ((e : Text)
            → has_child s.state ≡ true
            → r.stop_error ≡ some e
            → (stop now r s).1 ≡ some (runner e))
  unfolding stop valid
  stop_lem v h =
      (ground arith, ground arith, ground arith, ground arith, ground arith, λ e. ground arith)

  -- `RestartVPN` brings up a child from every state, where the runner reports no error, and counts
  -- no crash. Where the runner cannot stop the old child it starts no new one.
  pub restart_vpn_lem :
      valid s.state ≡ true
      → (r.stop_error ≡ none
          → r.start_error ≡ none
          → ((restart_vpn now r s).0.state ≡ running)
            × ((restart_vpn now r s).0.snap.last_error ≡ [])
            × ((restart_vpn now r s).0.crashes ≡ s.crashes)
            × ((restart_vpn now r s).0.snap.restart_count ≡ s.snap.restart_count)
            × ((restart_vpn now r s).1 ≡ none))
        × ((e : Text)
            → has_child s.state ≡ true
            → r.stop_error ≡ some e
            → ((restart_vpn now r s).0.state ≡ stopped)
              × ((restart_vpn now r s).1 ≡ some (runner e)))
  unfolding restart_vpn valid
  restart_vpn_lem v = (ground arith, λ e. ground arith)

module _ (fl : Floats) (now : ℕ) (r : Runner) (s : Supervisor fl.F) where
  -- `Reload` wants RUNNING. If the runner stops the old child and starts a new one without an error,
  -- it ends in RUNNING, and the exit of the old child counts as no crash and no restart.
  pub reload_lem :
      s.stop_requested ≡ false
      → (e : Option Text)
      → (s.state ≢ running → reload fl now r (exited e) s ≡ (s, some not_running))
        × (s.state ≡ running
            → r.stop_error ≡ none
            → r.start_error ≡ none
            → IsUp now s.gen (reload fl now r (exited e) s).0
              × ((reload fl now r (exited e) s).0.crashes ≡ s.crashes)
              × ((reload fl now r (exited e) s).0.snap.restart_count ≡ s.snap.restart_count)
              × ((reload fl now r (exited e) s).1 ≡ none))
  unfolding reload
  reload_lem q e = (ground arith, ground arith)

module _ (fl : Floats) (now : ℕ) (s : Supervisor fl.F) where
  -- What a crash within the limit leaves.
  record Waits (t : Supervisor fl.F) (timer : Option ℕ) : Type 0 where
    waiting : t.state ≡ backoff
    same_gen : t.gen ≡ s.gen
    still_wanted : t.stop_requested ≡ false
    one_more : t.snap.restart_count ≡ suc s.snap.restart_count
    scheduled : timer ≡ some (delay fl s.policy (length t.crashes - 1))

  crash-Waits :
      (n : ℕ) (e : Option Text)
      → s.stop_requested ≡ false
      → s.state ≡ running
      → s.policy.max_restarts ≡ pos n
      → length s.crashes < n
      → Waits (on_child_exit fl now s.gen e s).0 (on_child_exit fl now s.gen e s).1
  unfolding on_child_exit
  crash-Waits n e q up m c = ground (
    arith,
    length-append s.crashes (now ∷ []),
    length-keep-le (λ t. leb now (t + magnitude s.policy.window)) (s.crashes ++ now ∷ []),
  )

module _ {F : Type 0} (now gen : ℕ) (id : Option Identity) where
  timer-IsUp :
      (t : Supervisor F)
      → t.state ≡ backoff
      → t.gen ≡ gen
      → t.stop_requested ≡ false
      → (u : Supervisor F) × (backoff_begin now gen t ≡ some u)
        × IsUp now gen (backoff_end now gen id u).0
  unfolding backoff_begin backoff_end
  timer-IsUp t b g q = (persist (transition now starting t), ground arith, ground arith)

module _ (fl : Floats) (now later : ℕ) (s : Supervisor fl.F) where
  -- A crash of a running child, while fewer than the limit are counted, adds one to the restart
  -- counter, leads to BACKOFF, and schedules a timer for the delay of the policy. When that timer
  -- fires first the runner is called, and if it succeeds the state is RUNNING again.
  pub crash_recovers :
      (n : ℕ) (e : Option Text) (id : Option Identity)
      → s.stop_requested ≡ false
      → s.state ≡ running
      → s.policy.max_restarts ≡ pos n
      → length s.crashes < n
      → let (t, timer) = on_child_exit fl now s.gen e s in
        (t.state ≡ backoff)
        × (t.snap.restart_count ≡ suc s.snap.restart_count)
        × (timer ≡ some (delay fl s.policy (length t.crashes - 1)))
        × (u : Supervisor fl.F) × (backoff_begin later s.gen t ≡ some u)
        × IsUp later s.gen (backoff_end later s.gen id u).0
  crash_recovers n e id q up m c =
      let w = crash-Waits fl now s n e q up m c in
      let (t, timer) = on_child_exit fl now s.gen e s in
      let (u, fires, runs) = timer-IsUp later s.gen id t w.waiting w.same_gen w.still_wanted in
      (w.waiting, w.one_more, w.scheduled, u, fires, runs)
