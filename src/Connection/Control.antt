-- ===== src/Connection/Control.antt =====
-- src/internal/connection/service.go: `Control` with connecting, disconnecting and restarting. The
-- mutex is held during each operation.
use blacktemple_kn.Prelude.{
  ℕ, zero, suc, Bool, true, false, not, ◌||◌, if◌then◌else◌, Option, none, some, List, [], ◌∷◌, any,
  Text, text_eq, is_empty, codes,
}
use blacktemple_kn.Supervisor.Recovery.{equal_fold}
use blacktemple_kn.Supervisor.States.{running, same_state}
use blacktemple_kn.Supervisor.Sequential.{restart_vpn}
use blacktemple_kn.Keys.State.{Key}
use blacktemple_kn.Profiles.State.{Profile, Entry, find_entry}
use blacktemple_kn.Profiles.Service.{not_found}
use blacktemple_kn.Connection.Candidates.{CandidatePair, candidate_order}
use blacktemple_kn.Connection.Errors.{
  Error, no_profile, no_candidate, blackkey_resolution_required, unsupported_in_environment,
  not_connected, unknown_op, unsupported_protocol, start_failed, of_profiles, public_error,
  classify_control, CodedError, code_control,
}
use blacktemple_kn.Connection.Generation.{ConnectionParams}
use blacktemple_kn.Connection.Service.{
  Connection, Environment, Step, sup_result, sup_stop, rest, attempt,
}

unfoldable pub is_unresolved : Profile → Bool
is_unresolved p =
    text_eq p.resolution_state (codes "unresolved") || text_eq p.source_kind (codes "blackkey")

unfoldable pub unresolved_or : Profile → Error
unfolding is_unresolved
unresolved_or p = if is_unresolved p then blackkey_resolution_required else no_candidate

unfoldable pub has_non_vless : List (Key ConnectionParams) → Bool
unfolding equal_fold
has_non_vless ks = any (λ k. not (equal_fold (λ c. c) k.protocol (codes "vless"))) ks

abbrev only_if : {A : Type 0} → Bool → A → Option A
only_if true a = some a
only_if false a = none

unfoldable pub order_of : Entry ConnectionParams → List (CandidatePair ConnectionParams)
unfolding candidate_order
order_of e =
    candidate_order (only_if e.keys.has_lkg e.keys.lkg) (only_if e.keys.has_active e.keys.active)
      e.keys.keys e.servers

module _ {W : Type 0} (env : Environment W) where
  -- The loop; `last` is the error of the attempt before.
  unfoldable pub connect_loop :
      ℕ
      → Text
      → Profile
      → List (CandidatePair ConnectionParams)
      → Error
      → Connection env.floats.F
      → W
      → Step W env.floats.F
  unfolding attempt
  connect_loop left profile_id p [] last c w = (w, c, some last)
  connect_loop zero profile_id p (pair ∷ pairs) last c w = (w, c, some last)
  connect_loop (suc left) profile_id p (pair ∷ pairs) last c w =
      let (w1, c1, r) = attempt env profile_id p pair c w in
      elim r [ none ↦ (w1, c1, none) | some e ↦ connect_loop left profile_id p pairs e c1 w1 ]

  -- 16 attempts at most.
  unfoldable pub connect_order :
      Text
      → Entry ConnectionParams
      → List (CandidatePair ConnectionParams)
      → Connection env.floats.F
      → W
      → Step W env.floats.F
  unfolding has_non_vless unresolved_or connect_loop
  connect_order profile_id e [] c w = (
    w,
    c,
    some (if has_non_vless e.keys.keys then unsupported_protocol else unresolved_or e.profile),
  )
  connect_order profile_id e (pair ∷ pairs) c w =
      connect_loop 16 profile_id e.profile (pair ∷ pairs) no_candidate c w

  unfoldable pub connect_entry :
      Text → Entry ConnectionParams → Connection env.floats.F → W → Step W env.floats.F
  unfolding unresolved_or connect_order order_of
  connect_entry profile_id e c w = elim e.keys.keys [
    | [] ↦ (w, c, some (unresolved_or e.profile))
    | k ∷ ks ↦ connect_order profile_id e (order_of e) c w
  ]

  unfoldable pub connect : Connection env.floats.F → W → Step W env.floats.F
  unfolding find_entry connect_entry
  connect c w =
      let id = c.profiles.memory.active_id in
      if is_empty id
      then (w, c, some no_profile)
      else (elim (find_entry id c.profiles.memory.by_id) [
        | none ↦ (w, c, some (of_profiles not_found))
        | some e ↦ connect_entry id e c w
      ])

  unfoldable pub reconnect : Connection env.floats.F → W → Step W env.floats.F
  unfolding same_state sup_stop connect
  reconnect c w =
      let (w', c', r) = sup_stop env c w in
      if same_state c.sup.state running
      then (elim r [ some e ↦ (w', c', some e) | none ↦ connect c' w' ])
      else connect c w

  unfoldable pub restart : Connection env.floats.F → W → Step W env.floats.F
  unfolding same_state rest restart_vpn
  restart c w =
      let (w0, c0) = rest env c w in
      let (w', now, r) = env.ask w0 in
      if not (same_state c.sup.state running)
      then (w, c, some not_connected)
      else sup_result env w' c0 start_failed (restart_vpn now r c0.sup)

  unfoldable pub control_op : Text → Connection env.floats.F → W → Step W env.floats.F
  unfolding connect sup_stop reconnect restart
  control_op op c w =
      if text_eq op (codes "connect")
      then connect c w
      else if text_eq op (codes "disconnect")
      then sup_stop env c w
      else if text_eq op (codes "reconnect")
      then reconnect c w
      else if text_eq op (codes "restart-vpn")
      then restart c w
      else if text_eq op (codes "restart-manager") || text_eq op (codes "full-restart")
      then (w, c, some unsupported_in_environment)
      else (w, c, some unknown_op)

  unfoldable pub reported : Step W env.floats.F → W × Connection env.floats.F × Option CodedError
  unfolding public_error classify_control code_control
  reported (w, c, none) = (w, record c { last_err = []; last_class = [] }, none)
  reported (w, c, some e) = (
    w,
    record c { last_err = public_error e; last_class = classify_control e },
    some (code_control e),
  )

  unfoldable pub control :
      Text → Connection env.floats.F → W → W × Connection env.floats.F × Option CodedError
  unfolding control_op reported
  control op c w = reported (control_op op c w)
