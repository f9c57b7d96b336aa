-- ===== src/Capture/Preflight.antt =====
-- src/internal/routing/preflight.go: `Preflight` over the executor.
use blacktemple_kn.Prelude.{
  ℕ, Bool, true, false, not, ◌&&◌, ◌||◌, if◌then◌else◌, Option, none, some, is_some, List, [], ◌∷◌,
  ◌++◌, any, Text, codes, text_eq, is_empty, ◌⊎◌, inl, inr, nonpositive, magnitude, ◌==◌, length,
}
use blacktemple_kn.Strings.{trim_space}
use blacktemple_kn.Strings.Decimal.{decimal}
use blacktemple_kn.Netip.Addr.{Addr}
use blacktemple_kn.Capture.Commands.{Argv, words}
use blacktemple_kn.Capture.Engine.{
  Output, XkeenPresence, absent, live, residual, Collision, mark, table, port, chain, xkeen,
  PreflightReport, ExpectedListener, Engine, is_table_absent, list_nat, list_mangle, show_rules,
  show_table,
}
use blacktemple_kn.Capture.Probes.{
  lines_of, mark_in_use, table_in_use, parse_listen_pids, port_occupied_foreign,
  btkn_chains_present, classify_xkeen,
}

-- `run` is Executor.Run, `allow` the guard's Allow, with the text of its error, and `over` the error
-- of the context, once it is over.
pub record Host (W : Type 0) : Type 0 where
  pub run : W → Argv → W × Output
  pub allow : Addr → Option Text
  pub over : W → Option Text

abbrev pub list_sockets : Argv
list_sockets = record { name = codes "ss"; args = words "-lntup" }

abbrev pub cat_tcp : Argv
cat_tcp = record { name = codes "cat"; args = words "/proc/net/tcp" }

abbrev pub cat_udp : Argv
cat_udp = record { name = codes "cat"; args = words "/proc/net/udp" }

abbrev pub find_xkeen : Argv
find_xkeen = record { name = codes "pidof"; args = words "xkeen" }

unfoldable pub read_exe : ℕ → Argv
unfolding decimal
read_exe pid = record {
  name = codes "readlink";
  args = (codes "/proc/" ++ (decimal pid ++ codes "/exe")) ∷ [];
}

-- `add` of `probePortOwners`: a path that is not empty and new goes behind the others.
unfoldable pub add_owner : Output → List Text → List Text
unfolding trim_space
add_owner o owners =
    let path = trim_space o.out in
    if is_some o.err || is_empty path || any (text_eq path) owners
    then owners
    else owners ++ path ∷ []

abbrev state_name : XkeenPresence → Text
state_name absent = codes "XKEEN_ABSENT"
state_name live = codes "XKEEN_LIVE"
state_name residual = codes "XKEEN_RESIDUAL_CAPTURE"

abbrev pub is_in_the_way : XkeenPresence → Bool
is_in_the_way absent = false
is_in_the_way _ = true

-- A collision, where the test holds.
abbrev pub found : Bool → Collision → List Collision
found true c = c ∷ []
found false c = []

-- The report on the outputs of the probes.
unfoldable pub report_on :
    Engine → Output → Output → Output → Output → Text → List Text → Output → PreflightReport
unfolding mark_in_use table_in_use port_occupied_foreign btkn_chains_present classify_xkeen
report_on e nat mangle rules routes listen owners pidof =
    let blob = lines_of nat.out (lines_of mangle.out rules.out) in
    let state = classify_xkeen nat.out mangle.out listen pidof rules.out in
    let fresh = not e.applied in
    let all =
      found (mark_in_use blob && fresh)
        (record { kind = mark; detail = codes "mark 0x42544b4e already in use" })
      ++ (found (table_in_use routes && fresh)
            (record { kind = table; detail = codes "table 4254 already exists" })
          ++ (found (port_occupied_foreign listen owners 11820 e.expected && fresh)
                (record { kind = port; detail = codes "port 11820 owned by a foreign process" })
              ++ (found (btkn_chains_present nat.out mangle.out && fresh)
                    (record { kind = chain; detail = codes "BTKN chains unexpectedly exist" })
                  ++ found (is_in_the_way state) (record {
                    kind = xkeen;
                    detail = codes "xkeen capture engine detected " ++ state_name state;
                  })))) in
    record {
      ok = length all == 0;
      collisions = all;
      xkeen_active = is_in_the_way state;
      xkeen_state = state;
    }

module _ {W : Type 0} (host : Host W) where
  -- A probe whose error ends Preflight; `pass` says of an output whether its error counts.
  unfoldable pub probe :
      {A : Type 0} → (Output → Bool) → Argv → W → (Output → W → W × (Text ⊎ A)) → W × (Text ⊎ A)
  probe pass c w next =
      let (w', o) = host.run w c in
      elim o.err [ none ↦ next o w' | some e ↦ if pass o then next o w' else (w', inl e) ]

  -- `probeListenText`, with the two files of /proc where `ss` fails.
  unfoldable pub with_udp : Output → Output → W → W × (Text ⊎ Text)
  with_udp tcp udp w = (w, inr (lines_of tcp.out udp.out))

  unfoldable pub with_tcp : Output → W → W × (Text ⊎ Text)
  unfolding probe with_udp
  with_tcp tcp w = probe (λ o. false) cat_udp w (with_udp tcp)

  unfoldable pub probe_listen_text : W → W × (Text ⊎ Text)
  unfolding probe with_tcp
  probe_listen_text w =
      let (w1, sockets) = host.run w list_sockets in
      elim sockets.err [
        | none ↦ (w1, inr sockets.out)
        | some e ↦ probe (λ o. false) cat_tcp w1 with_tcp
      ]

  -- The owners of the pids.
  unfoldable pub owners_of : List ℕ → W → List Text → W × List Text
  unfolding read_exe add_owner
  owners_of [] w owners = (w, owners)
  owners_of (pid ∷ pids) w owners =
      let (w', o) = host.run w (read_exe pid) in owners_of pids w' (add_owner o owners)

  -- `probePortOwners`, whose error is always nil.
  unfoldable pub probe_port_owners : ExpectedListener → Text → W → W × List Text
  unfolding owners_of parse_listen_pids
  probe_port_owners expected listen w =
      let (w', owners) = owners_of (parse_listen_pids listen 11820) w [] in
      if nonpositive expected.pid
      then (w', owners)
      else owners_of (magnitude expected.pid ∷ []) w' owners

  -- `Preflight` from the fifth probe on.
  unfoldable pub preflight_listen :
      Engine → Output → Output → Output → Output → W → W × (Text ⊎ PreflightReport)
  unfolding probe_listen_text probe_port_owners report_on
  preflight_listen e nat mangle rules routes w =
      let (w1, text) = probe_listen_text w in
      elim text [
        | inl error ↦ (w1, inl error)
        | inr listen ↦
            let (w2, owners) = probe_port_owners e.expected listen w1 in
            let (w3, pidof) = host.run w2 find_xkeen in
            (w3, inr (report_on e nat mangle rules routes listen owners pidof))
      ]

  -- `Preflight` after its third, second and first probe.
  unfoldable pub with_rules : Engine → Output → Output → Output → W → W × (Text ⊎ PreflightReport)
  unfolding probe preflight_listen is_table_absent
  with_rules e nat mangle rules w =
      probe is_table_absent show_table w (preflight_listen e nat mangle rules)

  unfoldable pub with_mangle : Engine → Output → Output → W → W × (Text ⊎ PreflightReport)
  unfolding probe with_rules
  with_mangle e nat mangle w = probe (λ o. false) show_rules w (with_rules e nat mangle)

  unfoldable pub with_nat : Engine → Output → W → W × (Text ⊎ PreflightReport)
  unfolding probe with_mangle
  with_nat e nat w = probe (λ o. false) list_mangle w (with_mangle e nat)

  unfoldable pub preflight : Engine → W → W × (Text ⊎ PreflightReport)
  unfolding probe with_nat
  preflight e w = elim (host.over w) [
    | some error ↦ (w, inl error)
    | none ↦ probe (λ o. false) list_nat w (with_nat e)
  ]
