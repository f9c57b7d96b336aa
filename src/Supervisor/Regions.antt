-- ===== src/Supervisor/Regions.antt =====
-- src/internal/supervisor: each stretch of code that runs under the mutex, one function for one
-- stretch. Between two of them the mutex is free and other operations may run.
use blacktemple_kn.Prelude.{
  ℕ, suc, ◌-◌, ◌==◌, ltb, Bool, true, false, not, ◌||◌, if◌then◌else◌, Option, none, some, [], ◌∷◌,
  ◌++◌, length, ℤ, pos, negsuc, Text,
}
use blacktemple_kn.Supervisor.States.{
  State, stopped, starting, running, reloading, failed, backoff, same_state,
}
use blacktemple_kn.Supervisor.Policy.{Floats, delay}
use blacktemple_kn.Supervisor.Record.{
  Snapshot, Supervisor, Identity, transition, persist, cancel_backoff, apply_identity, trim_crashes,
  spawn_watch,
}

-- `runner` and `cancelled` carry the text of the error of the runner, and of the context.
pub data Error : Type 0 where
  already_running not_running : Error
  runner : Text → Error
  cancelled : Text → Error

-- `StateRunning, StateStarting, StateReloading`: the states with a child.
unfoldable pub has_child : State → Bool
has_child running = true
has_child starting = true
has_child reloading = true
has_child _ = false

-- What `Start`, `Reload` and `runBackoff` do next, after the runner has started the child.
pub data Next : Type 0 where
  finished kill_child : Next

-- `waitErr` of the child, and what it does to the snapshot.
unfoldable pub exit_snapshot : Option Text → Snapshot → Snapshot
exit_snapshot none sn = record sn { last_error = []; last_exit = some 0; pid = none }
exit_snapshot (some e) sn = record sn { last_error = e; last_exit = some 1; pid = none }

-- `MaxRestarts >= 0 && len(crashes) > MaxRestarts`
unfoldable pub exhausted : ℤ → ℕ → Bool
exhausted (pos n) crashes = ltb n crashes
exhausted (negsuc n) crashes = false

module _ {F : Type 0} where
  abbrev pub set_error : Text → Supervisor F → Supervisor F
  set_error e s = record s { snap = record (s.snap) { last_error = e } }

  -- `Start`, up to the call of the runner; `none` is ErrAlreadyRunning.
  unfoldable pub start_begin : ℕ → Supervisor F → Option (Supervisor F)
  unfolding transition persist cancel_backoff has_child same_state
  start_begin now s =
      if has_child s.state
      then none
      else (let t = (if same_state s.state backoff then cancel_backoff s else s) in
          some (persist (transition now starting (record t { stop_requested = false }))))

  -- The runner failed with the error `e`: in `Start`, `Reload` and `runBackoff`.
  unfoldable pub start_failed : ℕ → Text → Supervisor F → Supervisor F
  unfolding transition persist
  start_failed now e s = persist (transition now failed (set_error e s))

  -- The child has started: in `Start` and `Reload`.
  unfoldable pub start_end : ℕ → Option Identity → Supervisor F → Supervisor F × Next
  unfolding transition persist apply_identity spawn_watch
  start_end now id s = if s.stop_requested then (s, kill_child) else (
    spawn_watch (persist (transition now running (set_error [] (apply_identity id s)))),
    finished,
  )

  -- After the child that `start_end` gave up is stopped.
  unfoldable pub start_abandoned : ℕ → Supervisor F → Supervisor F
  unfolding transition persist
  start_abandoned now s = persist (transition now stopped s)

  -- `Stop`, up to the call of the runner; `none` returns at once.
  unfoldable pub stop_begin : Supervisor F → Option (Supervisor F)
  unfolding cancel_backoff same_state
  stop_begin s =
      if same_state s.state stopped
      then none
      else some (cancel_backoff (record s { stop_requested = true; gen = suc s.gen }))

  unfoldable pub stop_end : ℕ → Supervisor F → Supervisor F
  unfolding transition persist
  stop_end now s =
      let t = transition now stopped s in
      persist (record t { snap = record (t.snap) { pid = none; started_at = none } })

  -- `Reload`, up to the call of the runner; `none` is ErrNotRunning.
  unfoldable pub reload_begin : ℕ → Supervisor F → Option (Supervisor F)
  unfolding transition persist same_state
  reload_begin now s =
      if same_state s.state running then some (persist (transition now reloading s)) else none

  -- The context of `Reload` ended while it waited for the old child.
  unfoldable pub reload_cancelled : ℕ → Supervisor F → Supervisor F
  unfolding transition persist
  reload_cancelled now s = persist (transition now failed s)

  unfoldable pub count_crash : ℕ → Supervisor F → Supervisor F
  unfolding trim_crashes
  count_crash now s =
      let t = trim_crashes now (record s { crashes = s.crashes ++ now ∷ [] }) in
      record t { snap = record (t.snap) { restart_count = suc t.snap.restart_count } }

module _ (fl : Floats) where
  -- The part of `onChildExit` that counts a crash. A delay is that of the backoff that it starts.
  unfoldable pub crashed : ℕ → Supervisor fl.F → Supervisor fl.F × Option ℕ
  unfolding count_crash exhausted transition persist
  crashed now s =
      let t = count_crash now s in
      if exhausted t.policy.max_restarts (length t.crashes)
      then (persist (transition now failed t), none)
      else (
        record (persist (transition now backoff t)) { backoff_cancel = true },
        some (delay fl t.policy (length t.crashes - 1)),
      )

  unfoldable pub on_child_exit : ℕ → ℕ → Option Text → Supervisor fl.F → Supervisor fl.F × Option ℕ
  unfolding exit_snapshot crashed transition persist same_state
  on_child_exit now gen wait_err s =
      let t = record s { snap = exit_snapshot wait_err s.snap } in
      if not (gen == s.gen)
      then (s, none)
      else if s.stop_requested
      then (persist (transition now stopped t), none)
      else if same_state s.state reloading
      then (persist t, none)
      else crashed now t

module _ {F : Type 0} where
  -- `runBackoff` of the generation `gen` when its delay is over; `none` gives up.
  unfoldable pub backoff_begin : ℕ → ℕ → Supervisor F → Option (Supervisor F)
  unfolding transition persist same_state
  backoff_begin now gen s =
      if not (gen == s.gen) || s.stop_requested || not (same_state s.state backoff)
      then none
      else some (persist (transition now starting s))

  -- `runBackoff` once the child has started.
  unfoldable pub backoff_end : ℕ → ℕ → Option Identity → Supervisor F → Supervisor F × Next
  unfolding transition persist apply_identity spawn_watch
  backoff_end now gen id s = if s.stop_requested || not (s.gen == gen) then (s, kill_child) else (
    spawn_watch (persist (transition now running (set_error [] (apply_identity id s)))),
    finished,
  )
