-- ===== src/Supervisor/Interleaving.antt =====
-- src/internal/supervisor: the stretches under the mutex as events that come in any order, which
-- covers every schedule of Start, Stop, Reload and the goroutines that they start. `Recover` is not
-- among them: it is modelled as a whole, before all of them.
use blacktemple_kn.Prelude.{ℕ, Option, List, [], ◌∷◌, Text, get_or}
use blacktemple_kn.Supervisor.Policy.{Floats}
use blacktemple_kn.Supervisor.Record.{Supervisor, Identity}
use blacktemple_kn.Supervisor.Regions.{
  start_begin, start_failed, start_end, start_abandoned, stop_begin, stop_end, reload_begin,
  reload_cancelled, on_child_exit, backoff_begin, backoff_end,
}

-- The first argument is what the clock shows.
pub data Region : Type 0 where
  start_begins : ℕ → Region
  start_fails : ℕ → Text → Region
  start_ends : ℕ → Option Identity → Region
  start_is_abandoned : ℕ → Region
  stop_begins : ℕ → Region
  stop_ends : ℕ → Region
  reload_begins : ℕ → Region
  reload_is_cancelled : ℕ → Region
  child_exits : ℕ → ℕ → Option Text → Region
  backoff_begins : ℕ → ℕ → Region
  backoff_ends : ℕ → ℕ → Option Identity → Region

-- What the goroutines do by themselves: one sees the exit of a child, or the delay of a restart is
-- over, and the child is started, fails to, or is given up.
pub data Wake : Type 0 where
  sees_exit : ℕ → ℕ → Option Text → Wake
  delay_over : ℕ → ℕ → Wake
  restarts : ℕ → ℕ → Option Identity → Wake
  restart_fails : ℕ → Text → Wake
  gives_up : ℕ → Wake

unfoldable pub region_of : Wake → Region
region_of (sees_exit now gen e) = child_exits now gen e
region_of (delay_over now gen) = backoff_begins now gen
region_of (restarts now gen id) = backoff_ends now gen id
region_of (restart_fails now e) = start_fails now e
region_of (gives_up now) = start_is_abandoned now

module _ (fl : Floats) where
  unfoldable pub run_region : Region → Supervisor fl.F → Supervisor fl.F
  run_region (start_begins now) s = get_or s (start_begin now s)
  run_region (start_fails now e) s = start_failed now e s
  run_region (start_ends now id) s = (start_end now id s).0
  run_region (start_is_abandoned now) s = start_abandoned now s
  run_region (stop_begins now) s = get_or s (stop_begin s)
  run_region (stop_ends now) s = stop_end now s
  run_region (reload_begins now) s = get_or s (reload_begin now s)
  run_region (reload_is_cancelled now) s = reload_cancelled now s
  run_region (child_exits now gen e) s = (on_child_exit fl now gen e s).0
  run_region (backoff_begins now gen) s = get_or s (backoff_begin now gen s)
  run_region (backoff_ends now gen id) s = (backoff_end now gen id s).0

  unfoldable pub run : List Region → Supervisor fl.F → Supervisor fl.F
  run [] s = s
  run (r ∷ rs) s = run rs (run_region r s)

  unfoldable pub wake : List Wake → Supervisor fl.F → Supervisor fl.F
  unfolding region_of run_region
  wake [] s = s
  wake (x ∷ xs) s = wake xs (run_region (region_of x) s)
