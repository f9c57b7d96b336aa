-- ===== src/Capture/Verified.antt =====
-- src/internal/routing/hybrid.go: what a `Remove` without an error has seen.
use blacktemple_kn.Prelude.{
  false, true, ◌⊎◌, Bool-cases, Option, none, some, List, [], ◌∷◌, Text, inl, inr, codes, ◌≡◌, refl,
  sym, subst, ap, ◌∙◌, arith, Option-cases,
}
use blacktemple_kn.Capture.Commands.{Argv, remove_commands}
use blacktemple_kn.Capture.Engine.{
  Output, Leftover, unverified, Engine, jump_present, owned_mark_rule_present, table_still_present,
  is_absent_object_failure, leftover, list_nat, list_mangle, show_rules, show_table,
}
use blacktemple_kn.Capture.Preflight.{Host}
use blacktemple_kn.Capture.Lifecycle.{
  run_removal, query, verify_removed, after_nat, after_mangle, after_rules, removal_error, remove,
}

leftover-none :
    (nat mangle rules routes : Output)
    → leftover nat mangle rules routes ≡ none
    → (jump_present nat.out (codes "PREROUTING") (codes "BTKN_PRE") ≡ false)
      × (jump_present mangle.out (codes "PREROUTING") (codes "BTKN_PRE") ≡ false)
      × (owned_mark_rule_present rules.out ≡ false)
      × (table_still_present routes ≡ false)
unfolding leftover
leftover-none nat mangle rules routes h = ground (arith, h)

module _ {W : Type 0} (host : Host W) where
  -- What `verifyRemoved` sees on a machine `w`: four queries, the first three with no error, that
  -- show no jump of ours, no rule for our mark and no route in our table.
  abbrev pub SeesNothing : W → Type 0
  SeesNothing w =
      let n = host.run w list_nat in
      let m = host.run n.0 list_mangle in
      let r = host.run m.0 show_rules in
      let t = host.run r.0 show_table in
      (n.1.err ≡ none)
      × (m.1.err ≡ none)
      × (r.1.err ≡ none)
      × (jump_present n.1.out (codes "PREROUTING") (codes "BTKN_PRE") ≡ false)
      × (jump_present m.1.out (codes "PREROUTING") (codes "BTKN_PRE") ≡ false)
      × (owned_mark_rule_present r.1.out ≡ false)
      × (table_still_present t.1 ≡ false)

  query-ok :
      (c : Argv) (w : W) (next : Output → W → W × Option Leftover)
      → (host.run w c).1.err ≡ none
      → query host c w next ≡ next (host.run w c).1 (host.run w c).0
  unfolding query
  query-ok c w next n =
      ap
        (λ err. elim err as (λ _. W × Option Leftover) [
          | some e ↦ ((host.run w c).0, some (unverified e))
          | none ↦ next (host.run w c).1 (host.run w c).0
        ])
        n

  query-failed :
      (c : Argv) (w : W) (next : Output → W → W × Option Leftover) (x : Text)
      → (host.run w c).1.err ≡ some x
      → (query host c w next).1 ≡ some (unverified x)
  unfolding query
  query-failed c w next x s = rw (query, s) refl

  query-none :
      (c : Argv) (w : W) (next : Output → W → W × Option Leftover)
      → (query host c w next).1 ≡ none
      → ((host.run w c).1.err ≡ none) × ((next (host.run w c).1 (host.run w c).0).1 ≡ none)
  query-none c w next h = elim (Option-cases ((host.run w c).1.err)) [
    | inl n ↦ (n, ap (λ x. x.1) (sym (query-ok c w next n)) ∙ h)
    | inr (x, s) ↦ ground (arith, query-failed c w next x s, h)
  ]

  verify_removed-none : (w : W) → (verify_removed host w).1 ≡ none → SeesNothing w
  unfolding verify_removed after_nat after_mangle after_rules
  verify_removed-none w h =
      let (w1, nat) = host.run w list_nat in
      let (w2, mangle) = host.run w1 list_mangle in
      let (w3, rules) = host.run w2 show_rules in
      let (n, h1) = query-none list_nat w (after_nat host) h in
      let (m, h2) = query-none list_mangle w1 (after_mangle host nat) h1 in
      let (r, h3) = query-none show_rules w2 (after_rules host nat mangle) h2 in
      let left = leftover-none nat mangle rules (host.run w3 show_table).1 h3 in
      (n, m, r, left.0, left.1, left.2, left.3)

  removal_error-none :
      (errors : List Text) (left : Option Leftover)
      → removal_error host errors left ≡ none
      → (errors ≡ []) × (left ≡ none)
  unfolding removal_error
  removal_error-none [] none h = (refl, refl)
  removal_error-none [] (some l) h = ground arith
  removal_error-none (x ∷ xs) none h = ground arith
  removal_error-none (x ∷ xs) (some l) h = ground arith

  -- Run one after the other from the machine `w`, each command succeeds, or fails on an object that is
  -- absent, and they end with the machine `end`.
  abbrev pub AllRemoved : List Argv → W → W → Type 0
  AllRemoved [] w end = w ≡ end
  AllRemoved (c ∷ cs) w end =
      (((host.run w c).1.err ≡ none) ⊎ (is_absent_object_failure (host.run w c).1 ≡ true))
      × AllRemoved cs (host.run w c).0 end

  run_removal-AllRemoved :
      (cs : List Argv) (w : W)
      → (run_removal host cs w).1 ≡ []
      → AllRemoved cs w (run_removal host cs w).0
  unfolding run_removal
  run_removal-AllRemoved [] w h = refl
  run_removal-AllRemoved (c ∷ cs) w h = elim (Option-cases ((host.run w c).1.err)) [
    | inl n ↦ (
      inl n,
      subst (AllRemoved cs (host.run w c).0) (sym (unfold run_removal in rw (run_removal, n) refl))
          (run_removal-AllRemoved cs (host.run w c).0 (rw (run_removal, n) at h)),
    )
    | inr (x, s) ↦ elim (Bool-cases (is_absent_object_failure (host.run w c).1)) [
      | inl y ↦ (
        inr y,
        subst (AllRemoved cs (host.run w c).0)
            (sym (unfold run_removal in rw (run_removal, s) refl))
            (run_removal-AllRemoved cs (host.run w c).0 (rw (run_removal, s, y) at h)),
      )
      | inr y ↦ absurd (let k = rw (run_removal, s, y) at h in ground (arith, k))
    ]
  ]

  -- After a Remove without an error the engine is not applied, every command of it, run in turn, has
  -- succeeded or found its object absent, and the verification behind them has seen nothing left of
  -- the capture.
  pub remove-SeesNothing :
      (e : Engine) (w : W)
      → (remove host e w).2 ≡ none
      → ((remove host e w).1.applied ≡ false)
        × AllRemoved remove_commands w (run_removal host remove_commands w).0
        × SeesNothing (run_removal host remove_commands w).0
  unfolding remove
  remove-SeesNothing e w h =
      let (errors, left) =
        removal_error-none (run_removal host remove_commands w).1
          (verify_removed host (run_removal host remove_commands w).0).1 h in
      (
        refl,
        run_removal-AllRemoved remove_commands w errors,
        verify_removed-none (run_removal host remove_commands w).0 left,
      )
