-- ===== src/Capture/Refusal.antt =====
-- src/internal/routing/hybrid.go, preflight.go: an `Apply` that is refused, and what an `Apply` that
-- goes through has found before.
use blacktemple_kn.Prelude.{
  ℕ, Bool, true, false, not, if◌then◌else◌, Option, none, some, List, [], ◌∷◌, Text, ◌⊎◌, inl, inr,
  ◌≡◌, refl, ◌∙◌, arith, Option-cases, if-both, nonpositive, magnitude,
}
use blacktemple_kn.Capture.Commands.{Argv, install_commands}
use blacktemple_kn.Capture.Engine.{
  Output, Error, preflight_failed, command, incomplete, join, PreflightReport, ExpectedListener,
  Engine, validate_client, is_table_absent, list_nat, list_mangle, show_rules, show_table,
}
use blacktemple_kn.Capture.Probes.{parse_listen_pids}
use blacktemple_kn.Capture.Preflight.{
  Host, list_sockets, cat_tcp, cat_udp, find_xkeen, read_exe, report_on, probe, probe_listen_text,
  owners_of, probe_port_owners, preflight_listen, preflight, with_nat, with_mangle, with_rules,
  with_tcp, with_udp,
}
use blacktemple_kn.Capture.Lifecycle.{
  Outcome, remove, joined, roll_back, run_install, apply_report, apply_preflight, apply,
}

-- The errors with which Apply ends before it installs anything.
unfoldable pub is_refusal : Error → Bool
is_refusal (command e) = false
is_refusal (incomplete es left) = false
is_refusal (join a b) = false
is_refusal _ = true

-- The commands that Preflight runs.
pub data IsQuery : Argv → Type 0 where
  of_nat : IsQuery list_nat
  of_mangle : IsQuery list_mangle
  of_rules : IsQuery show_rules
  of_table : IsQuery show_table
  of_sockets : IsQuery list_sockets
  of_tcp : IsQuery cat_tcp
  of_udp : IsQuery cat_udp
  of_xkeen : IsQuery find_xkeen
  of_exe : (pid : ℕ) → IsQuery (read_exe pid)

either_way :
    {X : Type 0} (P : X → Type 0) (err : Option Text) (b : Bool) (x : X) (y : Text → X)
    → P x
    → ((e : Text) → P (y e))
    → P (elim err as (λ _. X) [ none ↦ x | some e ↦ if b then x else y e ])
either_way P none b x y px py = px
either_way P (some e) true x y px py = px
either_way P (some e) false x y px py = py e

-- `reads` says that the queries leave the machine as it is.
module _ {W : Type 0} (host : Host W)
    (reads : (c : Argv) (w : W) → IsQuery c → (host.run w c).0 ≡ w) where
  probe-same :
      {A : Type 0} (pass : Output → Bool) (c : Argv) (w : W) (next : Output → W → W × (Text ⊎ A))
      → IsQuery c
      → ((o : Output) (v : W) → v ≡ w → (next o v).0 ≡ w)
      → (probe host pass c w next).0 ≡ w
  unfolding probe
  probe-same {A} pass c w next q h =
      let (w', o) = host.run w c in
      either_way (λ (r : W × (Text ⊎ A)). r.0 ≡ w) o.err (pass o) (next o w') (λ e. (w', inl e))
        (h o w' (reads c w q)) (λ e. reads c w q)

  owners_of-same :
      (pids : List ℕ) (w : W) (owners : List Text) → (owners_of host pids w owners).0 ≡ w
  unfolding owners_of
  owners_of-same [] w owners = refl
  owners_of-same (p ∷ ps) w owners =
      owners_of-same ps (host.run w (read_exe p)).0 _ ∙ reads (read_exe p) w (of_exe p)

  probe_port_owners-same :
      (l : ExpectedListener) (t : Text) (w : W) → (probe_port_owners host l t w).0 ≡ w
  unfolding probe_port_owners
  probe_port_owners-same l t w =
      let pids = parse_listen_pids t 11820 in
      let mine = magnitude l.pid ∷ [] in
      let (w', owners) = owners_of host pids w [] in
      let first = owners_of-same pids w [] in
      if-both (λ (r : W × List Text). r.0 ≡ w) (nonpositive l.pid) first
        (owners_of-same mine w' owners ∙ first)

  probe_listen_text-same : (w : W) → (probe_listen_text host w).0 ≡ w
  unfolding probe_listen_text with_tcp with_udp
  probe_listen_text-same w =
      let (w1, o) = host.run w list_sockets in
      let here = reads list_sockets w of_sockets in
      let files =
        probe-same (λ o. false) cat_tcp w1 (with_tcp host) of_tcp
          (λ tcp v e.
            probe-same (λ o. false) cat_udp v (with_udp host tcp) of_udp (λ udp u e'. e') ∙ e) in
      either_way (λ (r : W × (Text ⊎ Text)). r.0 ≡ w) o.err false (w1, inr o.out)
        (λ e. probe host (λ o. false) cat_tcp w1 (with_tcp host)) here (λ e. files ∙ here)

  preflight_listen-same :
      (e : Engine) (nat mangle rules routes : Output) (w : W)
      → (preflight_listen host e nat mangle rules routes w).0 ≡ w
  unfolding preflight_listen
  preflight_listen-same e nat mangle rules routes w = go (probe_listen_text host w).1
    where
      same : (probe_listen_text host w).0 ≡ w
      same = probe_listen_text-same w

      Rest : Text ⊎ Text → W × (Text ⊎ PreflightReport)
      Rest text = elim text as (λ _. W × (Text ⊎ PreflightReport)) [
        | inl error ↦ ((probe_listen_text host w).0, inl error)
        | inr listen ↦
            let (w2, owners) =
              probe_port_owners host e.expected listen (probe_listen_text host w).0 in
            let (w3, pidof) = host.run w2 find_xkeen in
            (w3, inr (report_on e nat mangle rules routes listen owners pidof))
      ]

      go : (text : Text ⊎ Text) → (Rest text).0 ≡ w
      go (inl error) = same
      go (inr listen) =
          let v = (probe_listen_text host w).0 in
          let owners = probe_port_owners-same e.expected listen v in
          reads find_xkeen (probe_port_owners host e.expected listen v).0 of_xkeen ∙ (owners ∙ same)

  preflight-same : (e : Engine) (w : W) → (preflight host e w).0 ≡ w
  unfolding preflight with_nat with_mangle with_rules
  preflight-same e w = elim (Option-cases (host.over w)) [
    | inr (x, s) ↦ rw (preflight, s) refl
    | inl n ↦
        rw (preflight, n)
          (probe-same (λ o. false) list_nat w (with_nat host e) of_nat
            (λ nat v p.
              probe-same (λ o. false) list_mangle v (with_mangle host e nat) of_mangle
                (λ mangle u q.
                  probe-same (λ o. false) show_rules u (with_rules host e nat mangle) of_rules
                    (λ rules t r.
                      probe-same is_table_absent show_table t
                        (preflight_listen host e nat mangle rules) of_table
                        (λ routes z y. preflight_listen-same e nat mangle rules routes z ∙ y)
                      ∙ r)
                  ∙ q)
              ∙ p))
  ]

  -- An outcome that leaves the machine as it was, or an error that is no refusal.
  abbrev IsCareful : W → Outcome W → Type 0
  IsCareful w (w', e, none) = Unit
  IsCareful w (w', e, some error) = (is_refusal error ≡ false) ⊎ (w' ≡ w)

  joined-IsCareful : (w : W) (failed : Text) (o : Outcome W) → IsCareful w (joined host failed o)
  unfolding joined is_refusal
  joined-IsCareful w failed (v, e, none) = inl refl
  joined-IsCareful w failed (v, e, some r) = inl refl

  run_install-IsCareful :
      (cs : List Argv) (e : Engine) (w v : W) → IsCareful w (run_install host cs e v)
  unfolding run_install roll_back
  run_install-IsCareful [] e w v = tt
  run_install-IsCareful (c ∷ cs) e w v = elim (Option-cases ((host.run v c).1.err)) [
    | inl n ↦ rw (run_install, n) (run_install-IsCareful cs e w (host.run v c).0)
    | inr (x, s) ↦ rw (run_install, s) (joined-IsCareful w x (remove host e (host.run v c).0))
  ]

  apply_report-IsCareful :
      (r : PreflightReport) (e : Engine) (w v : W) → v ≡ w → IsCareful w (apply_report host r e v)
  unfolding apply_report
  apply_report-IsCareful r e w v same = if-both (IsCareful w) r.xkeen_active (inr same) (
      if-both (IsCareful w) (not r.ok) (inr same)
        (run_install-IsCareful (install_commands e.client) e w v))

  apply-IsCareful : (e : Engine) (w : W) → IsCareful w (apply host e w)
  unfolding apply apply_preflight
  apply-IsCareful e w = elim (Option-cases (validate_client e.client)) [
    | inr (x, s) ↦ rw (apply, s) (inr refl)
    | inl n ↦ elim (Option-cases (host.allow e.client)) [
      | inr (x, s) ↦ rw (apply, n, s) (inr refl)
      | inl m ↦ rw (apply, n, m) (if-both (IsCareful w) e.applied tt (found (preflight host e w).1))
    ]
  ]
    where
      Found : Text ⊎ PreflightReport → Outcome W
      Found f = elim f as (λ _. Outcome W) [
        | inl failed ↦ ((preflight host e w).0, e, some (preflight_failed failed))
        | inr report ↦ apply_report host report e (preflight host e w).0
      ]

      found : (f : Text ⊎ PreflightReport) → IsCareful w (Found f)
      found (inl failed) = inr (preflight-same e w)
      found (inr r) = apply_report-IsCareful r e w (preflight host e w).0 (preflight-same e w)

  -- Where the queries leave the machine as it is, an Apply that is refused, because of the client,
  -- the guard, a failed probe, XKeen or a collision, leaves the machine as it was.
  pub apply_refused-same :
      (e : Engine) (w : W) (error : Error)
      → (apply host e w).2 ≡ some error
      → is_refusal error ≡ true
      → (apply host e w).0 ≡ w
  apply_refused-same e w error h refusal = careful (apply host e w) (apply-IsCareful e w) h
    where
      careful : (o : Outcome W) → IsCareful w o → o.2 ≡ some error → o.0 ≡ w
      careful (v, e', none) c h = ground (arith, h)
      careful (v, e', some x) (inl n) h = ground (arith, h, n, refusal)
      careful (v, e', some x) (inr same) h = same
