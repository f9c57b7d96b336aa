-- ===== src/Examples/ChildLifecycle.antt =====
-- The supervisor's theorems at concrete inputs.
use blacktemple_kn.Prelude.{
  ℕ, ◌*◌, ◌≤◌, ltb, true, false, ◌≡◌, refl, none, some, List, [], ◌∷◌, length, keep, arith, codes,
  ℤ, pos, text_eq,
}
use blacktemple_kn.Supervisor.States.{stopped, running, reloading, failed, backoff, valid}
use blacktemple_kn.Supervisor.Policy.{
  Floats, RestartPolicy, delay, delay_cap, first_delay, backoff_loop,
}
use blacktemple_kn.Supervisor.Record.{Snapshot, Supervisor, empty_snapshot, new}
use blacktemple_kn.Supervisor.Regions.{
  start_failed, start_end, start_abandoned, stop_begin, stop_end, reload_cancelled, on_child_exit,
  start_begin,
}
use blacktemple_kn.Supervisor.Sequential.{Runner, exited, stop, reload}
use blacktemple_kn.Supervisor.Interleaving.{
  start_begins, start_ends, child_exits, Region, run, run_region,
}
use blacktemple_kn.Supervisor.Recovery.{
  Processes, loaded, recover, recover_pid, same_executable, adopt_live, adopted,
}
use blacktemple_kn.Supervisor.Invariant.{Inv, run-Inv}
use blacktemple_kn.Supervisor.Storm.{counted, in_window, no_restart_storm}
use blacktemple_kn.Supervisor.Backoff.{delay_bounds}
use blacktemple_kn.Supervisor.Trust.{IsOurs, recover-IsOurs}
use blacktemple_kn.Supervisor.Races.{
  stop_during_start, stop_then_start_fails, stop_silences_old_goroutines, cancelled_reload_restarts,
}
use blacktemple_kn.Supervisor.Paths.{stop_lem, reload_lem, crash_recovers}

-- Multipliers that are whole numbers, and products that do not round.
abbrev whole : Floats
whole = record { F = ℕ; two = 2; below_one = λ m. ltb m 1; scale = λ d m. pos (d * m) }

abbrev policy : RestartPolicy ℕ
policy = record {
  max_restarts = pos 2;
  window = pos 60;
  initial_backoff = pos 3;
  max_backoff = pos 10;
  multiplier = 2;
}

abbrev crashing : List Region
crashing = start_begins 1 ∷ start_ends 2 none ∷ child_exits 5 1 none ∷ []

crashing_backs_off : (run whole crashing (new policy)).state ≡ backoff
unfolding run run_region start_end on_child_exit new start_begin
crashing_backs_off = refl

no_restart_storm_example : length (keep (in_window 60 7) (counted whole crashing (new policy))) ≤ 2
no_restart_storm_example =
    no_restart_storm whole policy 59 2 crashing 7 refl refl (omega arith) crashing_backs_off

delay_bounds_example :
    (delay whole policy 1 ≤ delay_cap policy)
    × (delay whole policy 1 ≤ delay whole policy 2)
    × (first_delay policy ≤ delay_cap policy → first_delay policy ≤ delay whole policy 1)
delay_bounds_example = delay_bounds whole policy 1

delays : (delay whole policy 1 ≡ 6) × (delay whole policy 2 ≡ 10)
unfolding delay backoff_loop
delays = (refl, refl)

abbrev up : Supervisor ℕ
up = record {
  policy = policy;
  state = running;
  stop_requested = false;
  gen = 1;
  crashes = [];
  backoff_cancel = false;
  watching = true;
  snap = record empty_snapshot { state = running; pid = some (pos 7); started_at = some 2 };
  stored =
      some (record empty_snapshot { state = running; pid = some (pos 7); started_at = some 2 });
}

abbrev bouncing : Supervisor ℕ
bouncing = record up { state = reloading; snap = record (up.snap) { state = reloading } }

abbrev stopping : Supervisor ℕ
stopping = record up { stop_requested = true; gen = 2 }

abbrev fine : Runner
fine = record { start_error = none; stop_error = none; identity = none }

stop_during_start_example : (start_abandoned 9 (stop_end 8 stopping)).state ≡ stopped
unfolding stop_begin
stop_during_start_example = (stop_during_start 8 9 none up refl).1

stop_then_start_fails_example :
    (start_failed 9 (codes "killed") (stop_end 8 stopping)).state ≡ failed
unfolding stop_begin
stop_then_start_fails_example = (stop_then_start_fails 8 9 (codes "killed") up refl).0

stop_silences_old_goroutines_example :
    on_child_exit whole 9 1 none (stop_end 8 stopping) ≡ (stop_end 8 stopping, none)
unfolding stop_begin
stop_silences_old_goroutines_example = (stop_silences_old_goroutines whole 8 9 none up refl).0

cancelled_reload_restarts_example :
    (on_child_exit whole 9 1 none (reload_cancelled 8 bouncing)).0.state ≡ backoff
cancelled_reload_restarts_example =
    (cancelled_reload_restarts whole 8 9 none bouncing 2 refl refl refl (omega arith)).0

stop_lem_example : (stop 3 fine up).0.state ≡ stopped
unfolding valid
stop_lem_example = (stop_lem 3 fine up refl (λ e. cc)).0.reached

reload_lem_example : (reload whole 3 fine (exited none) up).0.state ≡ running
reload_lem_example = ((reload_lem whole 3 fine up refl none).1 refl refl refl).0.up

crash_recovers_example : (on_child_exit whole 5 1 none up).0.state ≡ backoff
crash_recovers_example = (crash_recovers whole 5 9 up 2 none none refl refl refl (omega arith)).0

abbrev table : Processes
table = record {
  alive = λ p. true;
  executable = λ p. some (codes "/opt/bin/XRAY");
  adopt = some (λ p. none);
  fold_others = λ c. c;
}

abbrev remembered : Snapshot
remembered = record (up.snap) { executable = codes "xray" }

-- The old child is adopted, and crashes.
abbrev adopted_crash : List Region
adopted_crash = child_exits 5 1 none ∷ []

run-Inv_example :
    Inv (run whole adopted_crash (recover 3 table none (loaded remembered) (new policy)))
run-Inv_example = run-Inv whole policy 3 table none (loaded remembered) adopted_crash

recover-IsOurs_example :
    (sn : Snapshot) × (pid : ℤ) × (loaded remembered ≡ loaded sn)
    × (sn.pid ≡ some pid)
    × IsOurs table pid sn.executable
unfolding recover new recover_pid same_executable text_eq adopt_live adopted
recover-IsOurs_example = recover-IsOurs 3 none table (loaded remembered) (new policy) (λ e. cc) refl
