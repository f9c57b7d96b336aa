-- ===== src/Capture/Outcomes.antt =====
-- src/internal/routing/hybrid.go: an `Apply` that goes through, and one whose command fails.
use blacktemple_kn.Prelude.{
  true, false, if◌then◌else◌, none, some, is_some, List, [], ◌∷◌, ◌++◌, Text, inl, inr, ◌≡◌, refl,
  sym, ap, ◌∙◌, arith, Option-cases,
}
use blacktemple_kn.Capture.Commands.{Argv, install_commands}
use blacktemple_kn.Capture.Engine.{PreflightReport, absent, Output, Engine, validate_client}
use blacktemple_kn.Capture.Preflight.{Host, preflight}
use blacktemple_kn.Capture.Lifecycle.{
  Outcome, remove, roll_back, run_install, apply_report, apply_preflight, apply, joined,
}
use blacktemple_kn.Capture.Safety.{all_run, remove-engine}

-- The report of a Preflight that finds nothing in the way.
abbrev pub clear_report : PreflightReport
clear_report = record { ok = true; collisions = []; xkeen_active = false; xkeen_state = absent }

module _ {W : Type 0} (host : Host W) where
  -- Apply gets to the installation, on the machine that Preflight left.
  abbrev pub IsAdmitted : Engine → W → W → Type 0
  IsAdmitted e w w1 =
      (validate_client e.client ≡ none)
      × (host.allow e.client ≡ none)
      × (e.applied ≡ false)
      × (preflight host e w ≡ (w1, inr clear_report))

  apply-installs :
      (e : Engine) (w w1 : W)
      → IsAdmitted e w w1
      → apply host e w ≡ run_install host (install_commands e.client) e w1
  unfolding apply apply_preflight apply_report
  apply-installs e w w1 (v, a, n, p) =
      let skip : apply host e w ≡ (if e.applied then (w, e, none) else apply_preflight host e w) =
        rw (apply, v, a) refl in
      let asks = ap (λ b. if b then (w, e, none) else apply_preflight host e w) n in
      let reports : apply_preflight host e w ≡ run_install host (install_commands e.client) e w1 =
        rw (apply_preflight, ap (λ x. x.1) p) (ap (λ v. admitted e v) (ap (λ x. x.0) p)) in
      skip ∙ (asks ∙ reports)
    where
      admitted : Engine → W → Outcome W
      admitted e v = apply_report host clear_report e v

  all_run-ok :
      (c : Argv) (cs : List Argv) (w : W)
      → (host.run w c).1.err ≡ none
      → all_run host (c ∷ cs) w ≡ all_run host cs (host.run w c).0
  unfolding all_run
  all_run-ok c cs w n = rw (all_run, n) refl

  all_run-failed :
      (c : Argv) (cs : List Argv) (w : W) (x : Text)
      → (host.run w c).1.err ≡ some x
      → all_run host (c ∷ cs) w ≡ none
  unfolding all_run
  all_run-failed c cs w x s = rw (all_run, s) refl

  run_install-all :
      (cs : List Argv) (e : Engine) (w w' : W)
      → all_run host cs w ≡ some w'
      → run_install host cs e w ≡ (w', record e { applied = true }, none)
  unfolding run_install all_run
  run_install-all [] e w w' h = ground (arith, h)
  run_install-all (c ∷ cs) e w w' h = elim (Option-cases ((host.run w c).1.err)) [
    | inl n ↦
        rw (run_install, n)
          (run_install-all cs e (host.run w c).0 w' (sym (all_run-ok c cs w n) ∙ h))
    | inr (x, s) ↦ ground (arith, all_run-failed c cs w x s, h)
  ]

  joined_lem :
      (failed : Text) (x : Outcome W)
      → ((joined host failed x).0 ≡ x.0)
        × ((joined host failed x).1 ≡ x.1)
        × (is_some (joined host failed x).2 ≡ true)
  unfolding joined
  joined_lem failed (w, e, none) = (refl, refl, refl)
  joined_lem failed (w, e, some r) = (refl, refl, refl)

  run_install-fails :
      (before after : List Argv) (c : Argv) (e : Engine) (w w2 w3 : W) (o : Output) (failed : Text)
      → all_run host before w ≡ some w2
      → host.run w2 c ≡ (w3, o)
      → o.err ≡ some failed
      → run_install host (before ++ c ∷ after) e w ≡ roll_back host failed e w3
  unfolding run_install all_run
  run_install-fails [] after c e w w2 w3 o failed h r f =
      let same : w ≡ w2 = ground (arith, h) in
      let here : host.run w c ≡ (w3, o) = ap (λ x. host.run x c) same ∙ r in
      rw (run_install, ap (λ x. x.1.err) here ∙ f) (ap (λ x. roll_back host failed e x.0) here)
  run_install-fails (b ∷ before) after c e w w2 w3 o failed h r f =
      elim (Option-cases ((host.run w b).1.err)) [
        | inl n ↦
            let rest = sym (all_run-ok b before w n) ∙ h in
            rw (run_install, n)
              (run_install-fails before after c e (host.run w b).0 w2 w3 o failed rest r f)
        | inr (x, s) ↦ ground (arith, all_run-failed b before w x s, h)
      ]

  -- Where the client is a specified IPv4 address that the guard allows, the engine is not applied,
  -- Preflight finds nothing in the way, and no command of the installation has an error, Apply runs
  -- them all in order and ends with no error, applied.
  pub apply_lem :
      (e : Engine) (w w1 w2 : W)
      → IsAdmitted e w w1
      → all_run host (install_commands e.client) w1 ≡ some w2
      → apply host e w ≡ (w2, record e { applied = true }, none)
  apply_lem e w w1 w2 a h =
      apply-installs e w w1 a ∙ run_install-all (install_commands e.client) e w1 w2 h

  -- Where Apply gets to the installation and a command of it is the first one with an error, Apply
  -- ends on the machine that Remove leaves, not applied and with an error.
  pub apply_rolls_back :
      (e : Engine) (w w1 w2 w3 : W) (before after : List Argv) (c : Argv) (o : Output)
      (failed : Text)
      → IsAdmitted e w w1
      → install_commands e.client ≡ before ++ c ∷ after
      → all_run host before w1 ≡ some w2
      → host.run w2 c ≡ (w3, o)
      → o.err ≡ some failed
      → ((apply host e w).0 ≡ (remove host e w3).0)
        × ((apply host e w).1.applied ≡ false)
        × (is_some (apply host e w).2 ≡ true)
  unfolding roll_back
  apply_rolls_back e w w1 w2 w3 before after c o failed a split h r f =
      let rolled : apply host e w ≡ roll_back host failed e w3 =
        apply-installs e w w1 a
        ∙ (ap (λ cs. run_install host cs e w1) split
            ∙ run_install-fails before after c e w1 w2 w3 o failed h r f) in
      (
        ap (λ x. x.0) rolled ∙ (joined_lem failed (remove host e w3)).0,
        ap (λ x. x.1.applied) rolled
            ∙ (ap (λ x. x.applied) (joined_lem failed (remove host e w3)).1
                ∙ ap (λ x. x.applied) (remove-engine host e w3)),
        ap (λ x. is_some x.2) rolled ∙ (joined_lem failed (remove host e w3)).2,
      )
