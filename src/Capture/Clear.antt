-- ===== src/Capture/Clear.antt =====
-- src/internal/routing/preflight.go: what a report that lets Apply go on has found.
use blacktemple_kn.Prelude.{
  Bool, true, false, not, ◌&&◌, ◌==◌, List, ◌++◌, length, Text, ◌≡◌, ◌↔◌, refl, arith,
}
use blacktemple_kn.Capture.Engine.{Output, Collision, XkeenPresence, absent, live, residual, Engine}
use blacktemple_kn.Capture.Probes.{
  lines_of, mark_in_use, table_in_use, port_occupied_foreign, btkn_chains_present, classify_xkeen,
}
use blacktemple_kn.Capture.Preflight.{report_on, found, is_in_the_way}

none_found :
    (a b c d x : Bool) (p q r s t : Collision)
    → (length (found a p ++ (found b q ++ (found c r ++ (found d s ++ found x t)))) == 0) ≡ true
    → (a ≡ false) × (b ≡ false) × (c ≡ false) × (d ≡ false) × (x ≡ false)
none_found false false false false false p q r s t h = (refl, refl, refl, refl, refl)
none_found true b c d x p q r s t h = ground (arith, h)
none_found false true c d x p q r s t h = ground (arith, h)
none_found false false true d x p q r s t h = ground (arith, h)
none_found false false false true x p q r s t h = ground (arith, h)
none_found false false false false true p q r s t h = ground (arith, h)

absent_of : (p : XkeenPresence) → is_in_the_way p ≡ false → p ≡ absent
absent_of absent h = refl
absent_of live h = ground (arith, h)
absent_of residual h = ground (arith, h)

alone : (b : Bool) {applied : Bool} → applied ≡ false → (b && not applied) ≡ false → b ≡ false
alone b fresh h = ground (arith, fresh, h)

-- The outputs show none of our mark, our table, a foreign owner of our port, our chains and XKeen.
abbrev pub ShowsNothing :
    Engine → Output → Output → Output → Output → Text → List Text → Output → Type 0
ShowsNothing e nat mangle rules routes listen owners pidof =
    (mark_in_use (lines_of nat.out (lines_of mangle.out rules.out)) ≡ false)
    × (table_in_use routes ≡ false)
    × (port_occupied_foreign listen owners 11820 e.expected ≡ false)
    × (btkn_chains_present nat.out mangle.out ≡ false)
    × (classify_xkeen nat.out mangle.out listen pidof rules.out ≡ absent)

-- The report on an engine that is not applied is OK just where the outputs show none of our mark, our
-- table, a foreign owner of our port, our chains and XKeen.
pub report_on-ok :
    (e : Engine) (nat mangle rules routes : Output) (listen : Text) (owners : List Text)
    (pidof : Output)
    → e.applied ≡ false
    → ((report_on e nat mangle rules routes listen owners pidof).ok ≡ true)
      ↔ ShowsNothing e nat mangle rules routes listen owners pidof
unfolding report_on
report_on-ok e nat mangle rules routes listen owners pidof fresh = (only_if, if_shown)
  where
    only_if :
        (report_on e nat mangle rules routes listen owners pidof).ok ≡ true
        → ShowsNothing e nat mangle rules routes listen owners pidof
    only_if h =
        let (a, b, c, d, x) =
          none_found
            (mark_in_use (lines_of nat.out (lines_of mangle.out rules.out)) && not e.applied)
            (table_in_use routes && not e.applied)
            (port_occupied_foreign listen owners 11820 e.expected && not e.applied)
            (btkn_chains_present nat.out mangle.out && not e.applied)
            (is_in_the_way (classify_xkeen nat.out mangle.out listen pidof rules.out)) _ _ _ _ _
            h in
        (
          alone _ fresh a,
          alone _ fresh b,
          alone _ fresh c,
          alone _ fresh d,
          absent_of (classify_xkeen nat.out mangle.out listen pidof rules.out) x,
        )

    if_shown :
        ShowsNothing e nat mangle rules routes listen owners pidof
        → (report_on e nat mangle rules routes listen owners pidof).ok ≡ true
    if_shown (a, b, c, d, x) = rw (report_on, a, b, c, d, x) refl
