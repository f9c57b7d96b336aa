-- ===== src/Capture/Lifecycle.antt =====
-- src/internal/routing/hybrid.go: `Apply`, `Remove`, `Reconcile` and `FailOpen`, over what the
-- executor does to the machine.
use blacktemple_kn.Prelude.{
  Bool, true, false, not, if◌then◌else◌, Option, none, some, List, [], ◌∷◌, Text, inl, inr,
}
use blacktemple_kn.Capture.Commands.{Argv, install_commands, remove_commands}
use blacktemple_kn.Capture.Engine.{
  Output, Leftover, unverified, Error, existing_capture_engine, capture_collision, refused,
  preflight_failed, command, incomplete, join, PreflightReport, Engine, validate_client,
  is_absent_object_failure, leftover, list_nat, list_mangle, show_rules, show_table,
}
use blacktemple_kn.Capture.Preflight.{Host, preflight}

-- Where an operation ends: the machine, the engine and the error.
abbrev pub Outcome : Type 0 → Type 0
Outcome W = W × Engine × Option Error

module _ {W : Type 0} (host : Host W) where
  -- The loop of `Remove`, with the errors that do not say that the object is absent.
  unfoldable pub run_removal : List Argv → W → W × List Text
  unfolding is_absent_object_failure
  run_removal [] w = (w, [])
  run_removal (c ∷ cs) w =
      let (w', o) = host.run w c in
      let (end, errors) = run_removal cs w' in
      elim o.err [
        | none ↦ (end, errors)
        | some e ↦ (end, if is_absent_object_failure o then errors else e ∷ errors)
      ]

  -- A query whose error ends the verification.
  unfoldable pub query : Argv → W → (Output → W → W × Option Leftover) → W × Option Leftover
  query c w next =
      let (w', o) = host.run w c in
      elim o.err [ some e ↦ (w', some (unverified e)) | none ↦ next o w' ]

  -- `verifyRemoved` after its first, second and third query.
  unfoldable pub after_rules : Output → Output → Output → W → W × Option Leftover
  unfolding leftover
  after_rules nat mangle rules w =
      let (w', routes) = host.run w show_table in (w', leftover nat mangle rules routes)

  unfoldable pub after_mangle : Output → Output → W → W × Option Leftover
  unfolding query after_rules
  after_mangle nat mangle w = query show_rules w (after_rules nat mangle)

  unfoldable pub after_nat : Output → W → W × Option Leftover
  unfolding query after_mangle
  after_nat nat w = query list_mangle w (after_mangle nat)

  unfoldable pub verify_removed : W → W × Option Leftover
  unfolding query after_nat
  verify_removed w = query list_nat w after_nat

  unfoldable pub removal_error : List Text → Option Leftover → Option Error
  removal_error [] none = none
  removal_error errors left = some (incomplete errors left)

  unfoldable pub remove : Engine → W → Outcome W
  unfolding run_removal verify_removed removal_error remove_commands
  remove e w =
      let (w1, errors) = run_removal remove_commands w in
      let (w2, left) = verify_removed w1 in
      (w2, record e { applied = false }, removal_error errors left)

  -- The error of a command, with the one of the removal after it.
  unfoldable pub joined : Text → Outcome W → Outcome W
  joined failed (w, e, none) = (w, e, some (command failed))
  joined failed (w, e, some r) = (w, e, some (join (command failed) r))

  unfoldable pub roll_back : Text → Engine → W → Outcome W
  unfolding remove joined
  roll_back failed e w = joined failed (remove e w)

  -- The loop of `Apply`.
  unfoldable pub run_install : List Argv → Engine → W → Outcome W
  unfolding roll_back
  run_install [] e w = (w, record e { applied = true }, none)
  run_install (c ∷ cs) e w =
      let (w', o) = host.run w c in
      elim o.err [ some failed ↦ roll_back failed e w' | none ↦ run_install cs e w' ]

  -- `Apply` once Preflight has a report.
  unfoldable pub apply_report : PreflightReport → Engine → W → Outcome W
  unfolding run_install install_commands
  apply_report report e w =
      if report.xkeen_active
      then (w, e, some existing_capture_engine)
      else if not report.ok
      then (w, e, some capture_collision)
      else run_install (install_commands e.client) e w

  unfoldable pub apply_preflight : Engine → W → Outcome W
  unfolding preflight apply_report
  apply_preflight e w =
      let (w', found) = preflight host e w in
      elim found [
        | inl failed ↦ (w', e, some (preflight_failed failed))
        | inr report ↦ apply_report report e w'
      ]

  unfoldable pub apply : Engine → W → Outcome W
  unfolding validate_client apply_preflight
  apply e w = elim (validate_client e.client) [
    | some error ↦ (w, e, some error)
    | none ↦ elim (host.allow e.client) [
      | some r ↦ (w, e, some (refused r))
      | none ↦ if e.applied then (w, e, none) else apply_preflight e w
    ]
  ]

  -- `Reconcile` after the removal.
  unfoldable pub apply_desired : Bool → Outcome W → Outcome W
  unfolding apply
  apply_desired desired (w, e, some r) = (w, e, some r)
  apply_desired false (w, e, none) = (w, e, none)
  apply_desired true (w, e, none) = apply e w

  unfoldable pub reconcile : Bool → Engine → W → Outcome W
  unfolding remove apply_desired
  reconcile desired e w = apply_desired desired (remove (record e { applied = false }) w)

  unfoldable pub fail_open : Engine → W → Outcome W
  unfolding remove
  fail_open = remove
