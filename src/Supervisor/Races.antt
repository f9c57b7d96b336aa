-- ===== src/Supervisor/Races.antt =====
-- src/internal/supervisor: what happens when operations overlap, and when they do not.
use blacktemple_kn.Prelude.{
  ℕ, suc, ◌+◌, true, false, ◌≡◌, Option, none, some, [], ◌∷◌, ◌++◌, arith, length, length-append,
  length-keep-le, leb, magnitude, is_some, ◌<◌, pos, Text,
}
use blacktemple_kn.Supervisor.States.{stopped, reloading, failed, backoff, can_transition}
use blacktemple_kn.Supervisor.Policy.{Floats}
use blacktemple_kn.Supervisor.Record.{Supervisor, Identity, invalid_transition}
use blacktemple_kn.Supervisor.Regions.{
  start_failed, start_end, start_abandoned, stop_begin, stop_end, reload_cancelled, on_child_exit,
  backoff_begin, kill_child,
}

module _ {F : Type 0} where
  -- A `Stop` that begins while `Start` or `Reload` waits for the runner wins: the child that the
  -- runner has started is given up, no goroutine watches it, and the state ends as STOPPED.
  pub stop_during_start :
      (now later : ℕ) (id : Option Identity) (s : Supervisor F) {t : Supervisor F}
      → stop_begin s ≡ some t
      → (start_end later id (stop_end now t) ≡ (stop_end now t, kill_child))
        × ((start_abandoned later (stop_end now t)).state ≡ stopped)
        × ((start_abandoned later (stop_end now t)).gen ≡ suc s.gen)
  unfolding stop_begin stop_end start_end start_abandoned
  stop_during_start now later id s h = ground arith

  -- But if the runner then reports an error to that `Start`, which a child that is stopped while it
  -- starts may cause, the state ends as FAILED, by a transition that the table does not allow.
  pub stop_then_start_fails :
      (now later : ℕ) (e : Text) (s : Supervisor F) {t : Supervisor F}
      → stop_begin s ≡ some t
      → let u = start_failed later e (stop_end now t) in
        (u.state ≡ failed)
        × (u.stop_requested ≡ true)
        × (can_transition stopped failed ≡ false)
        × (u.snap.last_error ≡ invalid_transition stopped failed)
  unfolding stop_begin stop_end start_failed can_transition
  stop_then_start_fails now later e s h = ground arith

-- After `Stop` neither the exit of the old child nor a backoff that was pending changes anything.
pub stop_silences_old_goroutines :
    (fl : Floats) (now later : ℕ) (e : Option Text) (s : Supervisor fl.F) {t : Supervisor fl.F}
    → stop_begin s ≡ some t
    → (on_child_exit fl later s.gen e (stop_end now t) ≡ (stop_end now t, none))
      × (backoff_begin later s.gen (stop_end now t) ≡ none)
unfolding stop_begin stop_end on_child_exit backoff_begin
stop_silences_old_goroutines fl now later e s h = ground arith

module _ (fl : Floats) (now later : ℕ) (e : Option Text) where
  -- A `Reload` whose context ends while the old child still runs leaves the state FAILED. When the
  -- old child then exits, and fewer crashes than the limit have been counted, this counts as a crash,
  -- BACKOFF is entered from FAILED, which the table does not allow, and a restart is scheduled.
  pub cancelled_reload_restarts :
      (s : Supervisor fl.F) (n : ℕ)
      → s.state ≡ reloading
      → s.stop_requested ≡ false
      → s.policy.max_restarts ≡ pos n
      → length s.crashes < n
      → let (t, timer) = on_child_exit fl later s.gen e (reload_cancelled now s) in
        (t.state ≡ backoff)
        × (t.snap.restart_count ≡ suc s.snap.restart_count)
        × (t.snap.last_error ≡ invalid_transition failed backoff)
        × (can_transition failed backoff ≡ false)
        × (is_some timer ≡ true)
  unfolding reload_cancelled on_child_exit can_transition
  cancelled_reload_restarts s n r q x w = ground (
    arith,
    length-append s.crashes (later ∷ []),
    length-keep-le (λ t. leb later (t + magnitude s.policy.window)) (s.crashes ++ later ∷ []),
  )
