-- ===== src/Connection/Connected.antt =====
-- src/internal/connection/service.go: what a connection leaves behind.
use blacktemple_kn.Prelude.{
  List, [], ◌∷◌, ◌++◌, Option-cases, ℕ, true, false, not, Option, none, some, Text, ◌⊎◌, inl, inr,
  ◌≡◌, refl, sym, ap, ◌∙◌, subst, arith, if-known,
}
use blacktemple_kn.Supervisor.States.{
  State, stopped, running, starting, reloading, failed, backoff, raw, same_state,
}
use blacktemple_kn.Supervisor.Record.{Supervisor}
use blacktemple_kn.Supervisor.Regions
use blacktemple_kn.Supervisor.Regions.{start_begin}
use blacktemple_kn.Supervisor.Interleaving.{Wake, region_of, run_region, wake}
use blacktemple_kn.Supervisor.Sequential.{Runner, launch, start, stop, restart_vpn}
use blacktemple_kn.Profiles.State.{Profile}
use blacktemple_kn.Profiles.Service.{on_entry, choose_candidate, commit_last_known_good}
use blacktemple_kn.Profiles.Transactions.{commit}
use blacktemple_kn.Connection.Candidates.{CandidatePair}
use blacktemple_kn.Connection.Errors.{Error, child, other, start_failed, not_running}
use blacktemple_kn.Connection.Files.{install_config}
use blacktemple_kn.Connection.Generation.{ConnectionParams, generate_pair}
use blacktemple_kn.Connection.Service.{
  LkgStage, process_running, network_verified, config_validated, Connection, Probe, Environment,
  Step, sup_result, sup_stop, is_up, sup_launch, stop_after, rest, looked_at, commit_pair, checked,
  listening, probed, launched, installed, attempt,
}

pub same_state-running : (s : State) → same_state s running ≡ true → s ≡ running
unfolding same_state
same_state-running stopped h = ground (arith, h)
same_state-running starting h = ground (arith, h)
same_state-running running h = refl
same_state-running reloading h = ground (arith, h)
same_state-running failed h = ground (arith, h)
same_state-running backoff h = ground (arith, h)
same_state-running (raw t) h = ground (arith, h)

module _ {F : Type 0} where
  stop_lem : (now : ℕ) (r : Runner) (s : Supervisor F) → (stop now r s).0.state ≡ stopped
  unfolding stop
  stop_lem now r s = ground arith

  -- With an error nothing was started: the supervisor is as it was, or no child runs.
  abbrev IsVain : Supervisor F → Supervisor F × Option Regions.Error → Type 0
  IsVain before (s, none) = Unit
  IsVain before (s, some e) = (s ≡ before) ⊎ (same_state s.state running ≡ false)

  launch-IsVain : (now : ℕ) (r : Runner) (before s : Supervisor F) → IsVain before (launch now r s)
  unfolding launch Regions.start_failed
  launch-IsVain now r before s = elim (Option-cases r.start_error) [
    | inl n ↦ rw (launch, n) tt
    | inr (e, h) ↦ rw (launch, h) (inr refl)
  ]

  start-IsVain : (now : ℕ) (r : Runner) (s : Supervisor F) → IsVain s (start now r s)
  unfolding start
  start-IsVain now r s = elim (Option-cases (start_begin now s)) [
    | inl n ↦ rw (start, n) (inl refl)
    | inr (t, h) ↦ rw (start, h) (launch-IsVain now r s t)
  ]

  restart_vpn-IsVain : (now : ℕ) (r : Runner) (s : Supervisor F) → IsVain s (restart_vpn now r s)
  unfolding restart_vpn
  restart_vpn-IsVain now r s = restarted (stop now r s) (stop_lem now r s)
    where
      begun :
          (t : Supervisor F) (o : Supervisor F × Option Regions.Error)
          → t.state ≡ stopped
          → IsVain t o
          → IsVain s o
      begun t (u, none) h g = tt
      begun t (u, some e) h (inl same) = inr (rw (same, h) refl)
      begun t (u, some e) h (inr down) = inr down

      restarted :
          (p : Supervisor F × Option Regions.Error)
          → p.0.state ≡ stopped
          → IsVain s (elim p.1 as (λ _. Supervisor F × Option Regions.Error) [
            | some e ↦ (p.0, some e)
            | none ↦ start now r p.0
          ])
      restarted (t, some e) h = inr (rw h refl)
      restarted (t, none) h = begun t (start now r t) h (start-IsVain now r t)

-- The stage that a connection reaches.
abbrev pub reached {ℓ} : {A : Type ℓ} → Option A → LkgStage
reached none = process_running
reached (some probe) = network_verified

module _ {W : Type 0} (env : Environment W) where
  -- Only the goroutines of the supervisor have changed it since it was `from`.
  abbrev pub IsWoken : Supervisor env.floats.F → Supervisor env.floats.F → Type 0
  IsWoken from s = (ws : List Wake) × (s ≡ wake env.floats ws from)

  pub IsWoken-refl : (s : Supervisor env.floats.F) → IsWoken s s
  unfolding wake
  IsWoken-refl s = ([], refl)

  rest-IsWoken : (c : Connection env.floats.F) (w : W) → IsWoken c.sup (rest env c w).1.sup
  unfolding rest
  rest-IsWoken c w = ((env.meanwhile w).1, refl)

  -- Only the goroutines have changed the supervisor since it was `before`, or since some time at which
  -- no child was RUNNING.
  abbrev pub IsLeft : Supervisor env.floats.F → Supervisor env.floats.F → Type 0
  IsLeft before s =
      (from : Supervisor env.floats.F) × IsWoken from s
      × ((from ≡ before) ⊎ (same_state from.state running ≡ false))

  -- Without an error the child was RUNNING when the attempt looked at it, only the goroutines have
  -- changed the supervisor since then, and the stage is reached. With one, what `IsLeft` says.
  abbrev pub IsDone : Connection env.floats.F → Step W env.floats.F → Type 0
  IsDone before (w, c, none) =
      ((from : Supervisor env.floats.F) × (from.state ≡ running) × IsWoken from c.sup)
      × (c.lkg_stage ≡ reached env.probe)
  IsDone before (w, c, some e) = IsLeft before.sup c.sup

  wake-append :
      (us vs : List Wake) (s : Supervisor env.floats.F)
      → wake env.floats (us ++ vs) s ≡ wake env.floats vs (wake env.floats us s)
  unfolding wake
  wake-append [] vs s = refl
  wake-append (u ∷ us) vs s = wake-append us vs (run_region env.floats (region_of u) s)

  IsWoken-trans : (a b c : Supervisor env.floats.F) → IsWoken a b → IsWoken b c → IsWoken a c
  IsWoken-trans a b c (us, e) (vs, f) =
      (us ++ vs, f ∙ ap (wake env.floats vs) e ∙ sym (wake-append us vs a))

  IsLeft-down :
      (before s : Supervisor env.floats.F) → same_state s.state running ≡ false → IsLeft before s
  unfolding wake
  IsLeft-down before s h = (s, ([], refl), inr h)

  pub IsLeft-refl : (s : Supervisor env.floats.F) → IsLeft s s
  unfolding wake
  IsLeft-refl s = (s, ([], refl), inl refl)

  pub IsLeft-trans : (a b c : Supervisor env.floats.F) → IsLeft a b → IsLeft b c → IsLeft a c
  IsLeft-trans a b c (from, woken, was) (later, again, inr down) = (later, again, inr down)
  IsLeft-trans a b c (from, woken, was) (later, again, inl same) =
      (from, IsWoken-trans from b c woken (subst (λ x. IsWoken x c) same again), was)

  -- With an error, what `IsLeft` says.
  abbrev IsLaunch : Supervisor env.floats.F → Step W env.floats.F → Type 0
  IsLaunch before (w, c, none) = Unit
  IsLaunch before (w, c, some e) = IsLeft before c.sup

  sup_result-state :
      (w : W) (c : Connection env.floats.F) (wrap : Regions.Error → Error)
      (p : Supervisor env.floats.F × Option Regions.Error)
      → (sup_result env w c wrap p).1.sup ≡ p.0
  sup_result-state w c wrap (s, none) = refl
  sup_result-state w c wrap (s, some e) = refl

  pub sup_stop-stopped :
      (c : Connection env.floats.F) (w : W) → (sup_stop env c w).1.sup.state ≡ stopped
  unfolding sup_stop
  sup_stop-stopped c w =
      let (w0, c0) = rest env c w in
      let (w', now, r) = env.ask w0 in
      ap (λ (s : Supervisor env.floats.F). s.state)
        (sup_result-state w' c0 child (stop now r c0.sup))
      ∙ stop_lem now r c0.sup

  stop_after-IsDone :
      (before c : Connection env.floats.F) (e : Error) (w : W)
      → IsDone before (stop_after env e c w)
  unfolding stop_after
  stop_after-IsDone before c e w =
      IsLeft-down before.sup (sup_stop env c w).1.sup
        (subst (λ s. same_state s running ≡ false) (sym (sup_stop-stopped c w)) refl)

  commit_pair-IsDone :
      (id : Text) (pair : CandidatePair ConnectionParams) (before c : Connection env.floats.F)
      (w : W)
      → c.sup.state ≡ running
      → c.lkg_stage ≡ reached env.probe
      → IsDone before (commit_pair env id pair c w)
  unfolding commit_pair
  commit_pair-IsDone id pair before c w h g =
      let (w1, p1, r1) =
        commit env.storage (on_entry id (choose_candidate pair.key.id pair.srv.id)) c.profiles w in
      let (w2, now, r) = env.ask w1 in
      let (w3, p2, r2) = commit env.storage (on_entry id (commit_last_known_good now)) p1 w2 in
      ((c.sup, h, rest-IsWoken (record c { profiles = p2 }) w3), g)

  checked-IsDone :
      (probe : Probe W) (id : Text) (pair : CandidatePair ConnectionParams)
      (before c : Connection env.floats.F) (o : W × Option Text)
      → env.probe ≡ some probe
      → c.sup.state ≡ running
      → IsDone before (checked env id pair c o)
  unfolding checked
  checked-IsDone probe id pair before c (w, some e) p h = stop_after-IsDone before c (other e) w
  checked-IsDone probe id pair before c (w, none) p h =
      commit_pair-IsDone id pair before (record c { lkg_stage = network_verified }) w h
        (sym (ap reached p))

  listening-IsDone :
      (probe : Probe W) (id : Text) (pair : CandidatePair ConnectionParams)
      (before c : Connection env.floats.F) (o : W × Option Text)
      → env.probe ≡ some probe
      → c.sup.state ≡ running
      → IsDone before (listening env probe id pair c o)
  unfolding listening
  listening-IsDone probe id pair before c (w, some e) p h = stop_after-IsDone before c (other e) w
  listening-IsDone probe id pair before c (w, none) p h =
      checked-IsDone probe id pair before c (probe.check w) p h

  probed-IsDone :
      (o : Option (Probe W)) (id : Text) (pair : CandidatePair ConnectionParams)
      (before c : Connection env.floats.F) (w : W)
      → env.probe ≡ o
      → c.sup.state ≡ running
      → c.lkg_stage ≡ process_running
      → IsDone before (probed env o id pair c w)
  unfolding probed
  probed-IsDone none id pair before c w p h g =
      commit_pair-IsDone id pair before c w h (g ∙ sym (ap reached p))
  probed-IsDone (some probe) id pair before c w p h g =
      listening-IsDone probe id pair before c (probe.wait_listener w) p h

  sup_result-IsLaunch :
      (before : Supervisor env.floats.F) (w : W) (c : Connection env.floats.F)
      (wrap : Regions.Error → Error) (p : Supervisor env.floats.F × Option Regions.Error)
      → IsWoken before c.sup
      → IsVain c.sup p
      → IsLaunch before (sup_result env w c wrap p)
  sup_result-IsLaunch before w c wrap (s, none) woken h = tt
  sup_result-IsLaunch before w c wrap (s, some e) woken (inl same) =
      (before, subst (IsWoken before) (sym same) woken, inl refl)
  sup_result-IsLaunch before w c wrap (s, some e) woken (inr down) = IsLeft-down before s down

  sup_launch-IsLaunch : (c : Connection env.floats.F) (w : W) → IsLaunch c.sup (sup_launch env c w)
  unfolding sup_launch rest
  sup_launch-IsLaunch c w =
      let (w0, c0) = rest env c w in
      let (w1, c1) = rest env c0 w0 in
      let (w', now, r) = env.ask w1 in
      let woken : IsWoken c.sup c1.sup =
        IsWoken-trans c.sup c0.sup c1.sup (rest-IsWoken c w) (rest-IsWoken c0 w0) in
      if-known (IsLaunch c.sup) (is_up c0.sup.state)
        (λ up.
          sup_result-IsLaunch c.sup w' c1 start_failed (restart_vpn now r c1.sup) woken
            (restart_vpn-IsVain now r c1.sup))
        (λ down.
          sup_result-IsLaunch c.sup w' c1 start_failed (start now r c1.sup) woken
            (start-IsVain now r c1.sup))

  looked_at-IsDone :
      (id : Text) (pair : CandidatePair ConnectionParams) (before : Connection env.floats.F)
      (l : W × Connection env.floats.F)
      → IsDone before (looked_at env id pair l)
  unfolding looked_at
  looked_at-IsDone id pair before (w, c) =
      if-known (IsDone before) (not (same_state c.sup.state running))
        (λ n. stop_after-IsDone before c not_running w)
        (λ y.
          probed-IsDone env.probe id pair before (record c { lkg_stage = process_running }) w refl
            (same_state-running c.sup.state (ground (arith, y))) refl)

  launched-IsDone :
      (id : Text) (pair : CandidatePair ConnectionParams) (before : Connection env.floats.F)
      (l : Step W env.floats.F)
      → IsLaunch before.sup l
      → IsDone before (launched env id pair l)
  unfolding launched
  launched-IsDone id pair before (w, c, some e) h = h
  launched-IsDone id pair before (w, c, none) h = looked_at-IsDone id pair before (rest env c w)

  installed-IsDone :
      (id : Text) (pair : CandidatePair ConnectionParams) (c : Connection env.floats.F)
      (o : W × Option Error)
      → IsDone c (installed env id pair c o)
  unfolding installed
  installed-IsDone id pair c (w, some e) = IsLeft-refl c.sup
  installed-IsDone id pair c (w, none) =
      launched-IsDone id pair c _
        (sup_launch-IsLaunch (record c { lkg_stage = config_validated }) w)

  pub attempt-IsDone :
      (id : Text) (p : Profile) (pair : CandidatePair ConnectionParams)
      (c : Connection env.floats.F) (w : W)
      → IsDone c (attempt env id p pair c w)
  unfolding attempt
  attempt-IsDone id p pair c w =
      generated (generate_pair env.generate env.listen_host env.listen_port p pair)
    where
      generated :
          (g : Error ⊎ Text)
          → IsDone c (elim g as (λ _. Step W env.floats.F) [
            | inl e ↦ (w, c, some e)
            | inr config ↦
                installed env id pair c
                  (install_config env.os env.validate env.config_path config w)
          ])
      generated (inl e) = IsLeft-refl c.sup
      generated (inr config) =
          installed-IsDone id pair c (install_config env.os env.validate env.config_path config w)
