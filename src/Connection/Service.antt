-- ===== src/Connection/Service.antt =====
-- src/internal/connection/service.go: the service, and one attempt of `connectLocked`, over the
-- profile service and the supervisor. Between its calls of the supervisor the goroutines of the
-- supervisor may do anything that they can do; each call itself has no overlap.
use blacktemple_kn.Prelude.{
  ℕ, Bool, true, false, not, if◌then◌else◌, Option, none, some, List, ℤ, Text, inl, inr,
}
use blacktemple_kn.Supervisor.States.{State, running, starting, reloading, same_state}
use blacktemple_kn.Supervisor.Policy.{Floats}
use blacktemple_kn.Supervisor.Record.{Supervisor}
use blacktemple_kn.Supervisor.Interleaving.{Wake, wake}
use blacktemple_kn.Supervisor.Regions
use blacktemple_kn.Supervisor.Sequential.{Runner, start, stop, restart_vpn}
use blacktemple_kn.Profiles
use blacktemple_kn.Profiles.State.{Profile, Entry, find_entry}
use blacktemple_kn.Profiles.Store.{Storage}
use blacktemple_kn.Profiles.Service.{on_entry, choose_candidate, commit_last_known_good}
use blacktemple_kn.Profiles.Transactions.{commit}
use blacktemple_kn.Connection.Candidates.{CandidatePair}
use blacktemple_kn.Connection.Errors.{Error, not_running, other, start_failed, child}
use blacktemple_kn.Connection.Files.{Failure, Os, install_config, restore_backup}
use blacktemple_kn.Connection.Generation.{ConnectionParams, Generator, generate_pair}

pub data LkgStage : Type 0 where
  no_stage config_validated process_running network_verified : LkgStage

-- The service without what never changes. The path of the adapter is only ever set to `configPath`.
pub record Connection (F : Type 0) : Type 0 where
  pub profiles : Profiles.State.Service ConnectionParams
  pub sup : Supervisor F
  pub last_err : Text
  pub last_class : Text
  pub lkg_stage : LkgStage

-- `WaitListener` and `Check`, with the texts of their errors.
pub record Probe (W : Type 0) : Type 0 where
  pub wait_listener : W → W × Option Text
  pub check : W → W × Option Text

-- The wiring, and what the machine answers: `ask` gives the clock and the runner's answers to the next
-- operation of the supervisor, and `meanwhile` what the goroutines of the supervisor do before it.
pub record Environment (W : Type 0) : Type 1 where
  pub floats : Floats
  pub meanwhile : W → W × List Wake
  pub storage : Storage ConnectionParams W
  pub os : Os W
  pub validate : Text → W → Option Failure
  pub ask : W → W × ℕ × Runner
  pub probe : Option (Probe W)
  pub generate : Generator
  pub config_path : Text
  pub listen_host : Text
  pub listen_port : ℤ

-- The machine, the service and an error.
abbrev pub Step : Type 0 → Type 0 → Type 0
Step W F = W × Connection F × Option Error

abbrev pub is_up : State → Bool
is_up running = true
is_up starting = true
is_up reloading = true
is_up _ = false

module _ {W : Type 0} (env : Environment W) where
  abbrev pub sup_result :
      W
      → Connection env.floats.F
      → (Regions.Error → Error)
      → Supervisor env.floats.F × Option Regions.Error
      → Step W env.floats.F
  sup_result w c wrap (s, none) = (w, record c { sup = s }, none)
  sup_result w c wrap (s, some e) = (w, record c { sup = s }, some (wrap e))

  -- The goroutines of the supervisor have their turn.
  unfoldable pub rest : Connection env.floats.F → W → W × Connection env.floats.F
  unfolding wake
  rest c w = let (w', ws) = env.meanwhile w in (w', record c { sup = wake env.floats ws c.sup })

  unfoldable pub sup_stop : Connection env.floats.F → W → Step W env.floats.F
  unfolding rest stop
  sup_stop c w =
      let (w0, c0) = rest c w in
      let (w', now, r) = env.ask w0 in sup_result w' c0 child (stop now r c0.sup)

  -- The child is started, or restarted where there is one.
  unfoldable pub sup_launch : Connection env.floats.F → W → Step W env.floats.F
  unfolding rest start restart_vpn
  sup_launch c w =
      let (w0, c0) = rest c w in
      let (w1, c1) = rest c0 w0 in
      let (w', now, r) = env.ask w1 in
      if is_up c0.sup.state
      then sup_result w' c1 start_failed (restart_vpn now r c1.sup)
      else sup_result w' c1 start_failed (start now r c1.sup)

  -- Stop, and end the attempt with the error.
  unfoldable pub stop_after : Error → Connection env.floats.F → W → Step W env.floats.F
  unfolding sup_stop
  stop_after e c w = let (w', c', ignored) = sup_stop c w in (w', c', some e)

  -- The two calls of the profile service, whose errors are ignored.
  unfoldable pub commit_pair :
      Text → CandidatePair ConnectionParams → Connection env.floats.F → W → Step W env.floats.F
  unfolding commit on_entry choose_candidate commit_last_known_good rest
  commit_pair profile_id pair c w =
      let (w1, p1, r1) =
        commit env.storage (on_entry profile_id (choose_candidate pair.key.id pair.srv.id))
          c.profiles w in
      let (w2, now, r) = env.ask w1 in
      let (w3, p2, r2) =
        commit env.storage (on_entry profile_id (commit_last_known_good now)) p1 w2 in
      let (w4, c4) = rest (record c { profiles = p2 }) w3 in (w4, c4, none)

  unfoldable pub checked :
      Text
      → CandidatePair ConnectionParams
      → Connection env.floats.F
      → W × Option Text
      → Step W env.floats.F
  unfolding stop_after commit_pair
  checked profile_id pair c (w, some e) = stop_after (other e) c w
  checked profile_id pair c (w, none) =
      commit_pair profile_id pair (record c { lkg_stage = network_verified }) w

  unfoldable pub listening :
      Probe W
      → Text
      → CandidatePair ConnectionParams
      → Connection env.floats.F
      → W × Option Text
      → Step W env.floats.F
  unfolding stop_after checked
  listening probe profile_id pair c (w, some e) = stop_after (other e) c w
  listening probe profile_id pair c (w, none) = checked profile_id pair c (probe.check w)

  unfoldable pub probed :
      Option (Probe W)
      → Text
      → CandidatePair ConnectionParams
      → Connection env.floats.F
      → W
      → Step W env.floats.F
  unfolding listening commit_pair
  probed none profile_id pair c w = commit_pair profile_id pair c w
  probed (some probe) profile_id pair c w =
      listening probe profile_id pair c (probe.wait_listener w)

  -- What follows a launch without an error.
  unfoldable pub looked_at :
      Text → CandidatePair ConnectionParams → W × Connection env.floats.F → Step W env.floats.F
  unfolding same_state stop_after probed
  looked_at profile_id pair (w, c) =
      if not (same_state c.sup.state running)
      then stop_after not_running c w
      else probed env.probe profile_id pair (record c { lkg_stage = process_running }) w

  -- What follows the launch.
  unfoldable pub launched :
      Text → CandidatePair ConnectionParams → Step W env.floats.F → Step W env.floats.F
  unfolding restore_backup rest looked_at
  launched profile_id pair (w, c, some e) = ((restore_backup env.os env.config_path w).0, c, some e)
  launched profile_id pair (w, c, none) = looked_at profile_id pair (rest c w)

  unfoldable pub installed :
      Text
      → CandidatePair ConnectionParams
      → Connection env.floats.F
      → W × Option Error
      → Step W env.floats.F
  unfolding launched sup_launch
  installed profile_id pair c (w, some e) = (w, c, some e)
  installed profile_id pair c (w, none) =
      launched profile_id pair (sup_launch (record c { lkg_stage = config_validated }) w)

  -- One round of the loop; `none` is the end of `connectLocked` without an error.
  unfoldable pub attempt :
      Text
      → Profile
      → CandidatePair ConnectionParams
      → Connection env.floats.F
      → W
      → Step W env.floats.F
  unfolding generate_pair installed install_config
  attempt profile_id p pair c w =
      elim (generate_pair env.generate env.listen_host env.listen_port p pair) [
        | inl e ↦ (w, c, some e)
        | inr raw ↦
            installed profile_id pair c (install_config env.os env.validate env.config_path raw w)
      ]
