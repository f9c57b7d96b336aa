-- ===== src/Capture/Safety.antt =====
-- src/internal/routing/hybrid.go: what `Apply`, `Remove` and `Reconcile` leave behind.
use blacktemple_kn.Prelude.{
  Bool, true, false, not, ◌&&◌, if◌then◌else◌, Option, none, some, is_some, List, [], ◌∷◌, Text,
  ◌⊎◌, inl, inr, ◌≡◌, refl, sym, ap, subst, arith, Option-cases, if-both,
}
use blacktemple_kn.Capture.Commands.{Argv, install_commands}
use blacktemple_kn.Capture.Engine.{PreflightReport, Engine, validate_client}
use blacktemple_kn.Capture.Preflight.{Host, preflight}
use blacktemple_kn.Capture.Lifecycle.{
  Outcome, remove, roll_back, run_install, apply_report, apply_preflight, apply, reconcile, joined,
  apply_desired,
}

module _ {W : Type 0} (host : Host W) where
  -- The machine after all commands, where none has an error.
  unfoldable pub all_run : List Argv → W → Option W
  all_run [] w = some w
  all_run (c ∷ cs) w =
      let (w', o) = host.run w c in
      let rest = all_run cs w' in elim o.err [ none ↦ rest | some e ↦ none ]

  -- The engine is applied just where there is no error.
  abbrev pub Tells : Outcome W → Type 0
  Tells (w, e, error) = e.applied ≡ not (is_some error)

  pub remove-engine : (e : Engine) (w : W) → (remove host e w).1 ≡ record e { applied = false }
  unfolding remove
  remove-engine e w = refl

  joined-Tells :
      (failed : Text) (o : Outcome W) → o.1.applied ≡ false → Tells (joined host failed o)
  unfolding joined
  joined-Tells failed (w, e, none) h = h
  joined-Tells failed (w, e, some r) h = h

  pub roll_back-Tells : (failed : Text) (e : Engine) (w : W) → Tells (roll_back host failed e w)
  unfolding roll_back
  roll_back-Tells failed e w =
      joined-Tells failed (remove host e w) (ap (λ x. x.applied) (remove-engine e w))

  run_install-Tells : (cs : List Argv) (e : Engine) (w : W) → Tells (run_install host cs e w)
  unfolding run_install
  run_install-Tells [] e w = refl
  run_install-Tells (c ∷ cs) e w = elim (Option-cases ((host.run w c).1.err)) [
    | inl n ↦ rw (run_install, n) (run_install-Tells cs e (host.run w c).0)
    | inr (x, s) ↦ rw (run_install, s) (roll_back-Tells x e (host.run w c).0)
  ]

  apply_report-Tells :
      (r : PreflightReport) (e : Engine) (w : W)
      → e.applied ≡ false
      → Tells (apply_report host r e w)
  unfolding apply_report
  apply_report-Tells r e w h =
      if-both Tells r.xkeen_active h
        (if-both Tells (not r.ok) h (run_install-Tells (install_commands e.client) e w))

  apply_preflight-Tells :
      (e : Engine) (w : W) → e.applied ≡ false → Tells (apply_preflight host e w)
  unfolding apply_preflight
  apply_preflight-Tells e w h = go (preflight host e w).1 refl
    where
      go :
          (found : Text ⊎ PreflightReport)
          → (preflight host e w).1 ≡ found
          → Tells (apply_preflight host e w)
      go (inl failed) eq = rw (apply_preflight, eq) h
      go (inr r) eq = rw (apply_preflight, eq) (apply_report-Tells r e (preflight host e w).0 h)

  apply-Tells : (e : Engine) (w : W) → e.applied ≡ false → Tells (apply host e w)
  unfolding apply
  apply-Tells e w h = elim (Option-cases (validate_client e.client)) [
    | inr (x, s) ↦ rw (apply, s) h
    | inl n ↦ elim (Option-cases (host.allow e.client)) [
      | inr (x, s) ↦ rw (apply, n, s) h
      | inl m ↦
          rw (apply, n, m)
            (subst (λ b. Tells (if b then (w, e, none) else apply_preflight host e w)) (sym h)
              (apply_preflight-Tells e w h))
    ]
  ]

  apply_desired-Tells :
      (desired : Bool) (o : Outcome W)
      → o.1.applied ≡ false
      → let p = apply_desired host desired o in p.1.applied ≡ desired && not (is_some p.2)
  unfolding apply_desired
  apply_desired-Tells desired (w, e, some r) h = ground (arith, h)
  apply_desired-Tells false (w, e, none) h = h
  apply_desired-Tells true (w, e, none) h = apply-Tells e w h

  -- After Reconcile, whatever the machine does, the engine is marked as applied just where capture
  -- was desired and there is no error.
  pub reconcile-applied :
      (desired : Bool) (e : Engine) (w : W)
      → (reconcile host desired e w).1.applied
        ≡ desired && not (is_some (reconcile host desired e w).2)
  unfolding reconcile
  reconcile-applied desired e w =
      let off = record e { applied = false } in
      apply_desired-Tells desired (remove host off w) (ap (λ x. x.applied) (remove-engine off w))
