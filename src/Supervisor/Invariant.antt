-- ===== src/Supervisor/Invariant.antt =====
-- src/internal/supervisor: what holds of the state machine in every schedule.
use blacktemple_kn.Prelude.{
  ℕ, Bool, true, false, ◌≡◌, ◌⊎◌, Option, none, some, List, [], ◌∷◌, arith, length, get_or, ℤ,
  nonpositive, Text, Bool-cases, inl, inr, refl,
}
use blacktemple_kn.Supervisor.States.{State, stopped, starting, failed, backoff, valid}
use blacktemple_kn.Supervisor.Policy.{Floats, RestartPolicy}
use blacktemple_kn.Supervisor.Record.{Supervisor, Identity, new}
use blacktemple_kn.Supervisor.Regions.{
  start_begin, start_failed, start_end, start_abandoned, stop_begin, stop_end, reload_begin,
  reload_cancelled, on_child_exit, backoff_begin, backoff_end, exhausted,
}
use blacktemple_kn.Supervisor.Recovery.{
  Processes, Loaded, not_found, load_error, loaded, mark_stale, recover_idle, restored, adopted,
  adopt_failed, adopt_live, recover_pid, recover_snapshot, recover,
}
use blacktemple_kn.Supervisor.Interleaving.{
  Region, start_begins, start_fails, start_ends, start_is_abandoned, stop_begins, stop_ends,
  reload_begins, reload_is_cancelled, child_exits, backoff_begins, backoff_ends, run_region, run,
}

-- The states in which no child of ours is known to run.
abbrev pub is_childless : State → Bool
is_childless stopped = true
is_childless starting = true
is_childless failed = true
is_childless backoff = true
is_childless _ = false

abbrev pub is_down : State → Bool
is_down stopped = true
is_down failed = true
is_down _ = false

pub record Inv {F : Type 0} (s : Supervisor F) : Type 0 where
  pub state_valid : valid s.state ≡ true
  pub snap_state : s.snap.state ≡ s.state
  pub snap_stored : (s.stored ≡ some s.snap) ⊎ ((s.stored ≡ none) × (s.state ≡ stopped))
  pub childless_no_pid : is_childless s.state ≡ true → s.snap.pid ≡ none
  pub down_not_started : is_down s.state ≡ true → s.snap.started_at ≡ none
  pub backoff_within :
      s.state ≡ backoff → exhausted s.policy.max_restarts (length s.crashes) ≡ false

pub new-Inv : {F : Type 0} (p : RestartPolicy F) → Inv (new p)
unfolding new valid
new-Inv p = ground arith

module _ {F : Type 0} where
  start_begin-Inv : (now : ℕ) (s : Supervisor F) → Inv s → Inv (get_or s (start_begin now s))
  unfolding start_begin valid
  start_begin-Inv now s v = ground arith

  start_failed-Inv : (now : ℕ) (e : _) (s : Supervisor F) → Inv s → Inv (start_failed now e s)
  unfolding start_failed valid
  start_failed-Inv now e s v = ground arith

  start_end-Inv :
      (now : ℕ) (id : Option Identity) (s : Supervisor F) → Inv s → Inv (start_end now id s).0
  unfolding start_end valid
  start_end-Inv now id s v = ground arith

  start_abandoned-Inv : (now : ℕ) (s : Supervisor F) → Inv s → Inv (start_abandoned now s)
  unfolding start_abandoned valid
  start_abandoned-Inv now s v = ground arith

  stop_begin-Inv : (s : Supervisor F) → Inv s → Inv (get_or s (stop_begin s))
  unfolding stop_begin valid
  stop_begin-Inv s v = ground arith

  stop_end-Inv : (now : ℕ) (s : Supervisor F) → Inv s → Inv (stop_end now s)
  unfolding stop_end valid
  stop_end-Inv now s v = ground arith

  reload_begin-Inv : (now : ℕ) (s : Supervisor F) → Inv s → Inv (get_or s (reload_begin now s))
  unfolding reload_begin valid
  reload_begin-Inv now s v = ground arith

  reload_cancelled-Inv : (now : ℕ) (s : Supervisor F) → Inv s → Inv (reload_cancelled now s)
  unfolding reload_cancelled valid
  reload_cancelled-Inv now s v = ground arith

  backoff_begin-Inv :
      (now gen : ℕ) (s : Supervisor F) → Inv s → Inv (get_or s (backoff_begin now gen s))
  unfolding backoff_begin valid
  backoff_begin-Inv now gen s v = ground arith

  backoff_end-Inv :
      (now gen : ℕ) (id : Option Identity) (s : Supervisor F)
      → Inv s
      → Inv (backoff_end now gen id s).0
  unfolding backoff_end valid
  backoff_end-Inv now gen id s v = ground arith

module _ {F : Type 0} (now : ℕ) (id : Option Identity) (ps : Processes) where
  recover_pid-Inv :
      (pid : ℤ) (exe : Text) (s : Supervisor F)
      → s.state ≡ stopped
      → Inv (recover_pid now ps id pid exe s)
  unfolding recover_pid mark_stale adopt_live adopt_failed adopted valid
  recover_pid-Inv pid exe s h = ground arith

  recover-Inv :
      (answer : Loaded) (s : Supervisor F)
      → (answer ≡ not_found → s.stored ≡ none)
      → Inv s
      → Inv (recover now ps id answer s)
  unfolding recover recover_snapshot recover_idle valid
  recover-Inv not_found s n v = ground (arith, n refl)
  recover-Inv (load_error e) s n v = v
  recover-Inv (loaded sn) s n v = go sn.pid
    where
      go : (p : Option ℤ) → Inv (recover_snapshot now ps id sn p s)
      go none = ground arith
      go (some p) = elim (Bool-cases (nonpositive p)) [
        | inl e ↦ rw (e, recover_snapshot) (ground arith)
        | inr e ↦
            rw (e, recover_snapshot)
              (recover_pid-Inv p sn.executable (restored sn s) (unfold restored in refl))
      ]

module _ (fl : Floats) where
  on_child_exit-Inv :
      (now gen : ℕ) (e : _) (s : Supervisor fl.F) → Inv s → Inv (on_child_exit fl now gen e s).0
  unfolding on_child_exit valid
  on_child_exit-Inv now gen e s v = ground arith

  -- Each stretch of code keeps the invariant, whatever state it finds.
  pub run_region-Inv : (r : Region) (s : Supervisor fl.F) → Inv s → Inv (run_region fl r s)
  unfolding run_region
  run_region-Inv (start_begins now) s v = start_begin-Inv now s v
  run_region-Inv (start_fails now e) s v = start_failed-Inv now e s v
  run_region-Inv (start_ends now id) s v = start_end-Inv now id s v
  run_region-Inv (start_is_abandoned now) s v = start_abandoned-Inv now s v
  run_region-Inv (stop_begins now) s v = stop_begin-Inv s v
  run_region-Inv (stop_ends now) s v = stop_end-Inv now s v
  run_region-Inv (reload_begins now) s v = reload_begin-Inv now s v
  run_region-Inv (reload_is_cancelled now) s v = reload_cancelled-Inv now s v
  run_region-Inv (child_exits now gen e) s v = on_child_exit-Inv now gen e s v
  run_region-Inv (backoff_begins now gen) s v = backoff_begin-Inv now gen s v
  run_region-Inv (backoff_ends now gen id) s v = backoff_end-Inv now gen id s v

  pub run_from-Inv : (rs : List Region) (s : Supervisor fl.F) → Inv s → Inv (run fl rs s)
  unfolding run
  run_from-Inv [] s v = v
  run_from-Inv (r ∷ rs) s v = run_from-Inv rs (run_region fl r s) (run_region-Inv r s v)

  -- A new supervisor that has recovered with any answer of the store and of the process table, among
  -- them those that change nothing, and then runs any schedule of Start, Stop, Reload and their
  -- goroutines: the state is one of the six, the snapshot and the stored snapshot agree with it, no
  -- pid is recorded in STOPPED, STARTING, FAILED and BACKOFF, no start time in STOPPED and FAILED, and
  -- in BACKOFF the crashes counted are within the limit of the policy.
  pub run-Inv :
      (p : RestartPolicy fl.F) (now : ℕ) (ps : Processes) (id : Option Identity) (answer : Loaded)
      (rs : List Region)
      → Inv (run fl rs (recover now ps id answer (new p)))
  run-Inv p now ps id answer rs =
      run_from-Inv rs (recover now ps id answer (new p))
        (recover-Inv now id ps answer (new p) (λ e. unfold new in refl) (new-Inv p))
