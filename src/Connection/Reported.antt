-- ===== src/Connection/Reported.antt =====
-- src/internal/connection/service.go, httperr.go: what `Control` reports.
use blacktemple_kn.Prelude.{true, false, Option, none, some, Text, is_empty, ◌≤◌, ◌≡◌, refl, arith}
use blacktemple_kn.Connection.Errors.{
  invalid_vless_user_id, invalid_reality_public_key, invalid_reality_short_id, generate_failed,
  Error, no_profile, no_candidate, blackkey_resolution_required, unsupported_in_environment,
  not_connected, unknown_op, not_running, unsupported_protocol, unsupported_generated, missing_xray,
  validate, other, of_xray, start_failed, child, of_profiles, public_error, CodedError,
  code_control,
}
use blacktemple_kn.Connection.Service.{Connection, Environment, Step}
use blacktemple_kn.Connection.Control.{control_op, reported, control}

-- The code of an error: the error itself is the cause, the client hears of a failure, and the text
-- for the status page is not empty.
abbrev pub IsCode : Error → CodedError → Type 0
IsCode e k = (k.cause ≡ e) × (400 ≤ k.status) × (is_empty (public_error e) ≡ false)

code_control-IsCode : (e : Error) → IsCode e (code_control e)
unfolding code_control public_error
code_control-IsCode no_profile = (refl, omega arith, refl)
code_control-IsCode no_candidate = (refl, omega arith, refl)
code_control-IsCode blackkey_resolution_required = (refl, omega arith, refl)
code_control-IsCode unsupported_in_environment = (refl, omega arith, refl)
code_control-IsCode not_connected = (refl, omega arith, refl)
code_control-IsCode unknown_op = (refl, omega arith, refl)
code_control-IsCode not_running = (refl, omega arith, refl)
code_control-IsCode unsupported_protocol = (refl, omega arith, refl)
code_control-IsCode (unsupported_generated t) = (refl, omega arith, refl)
code_control-IsCode (missing_xray t) = (refl, omega arith, refl)
code_control-IsCode (validate t) = (refl, omega arith, refl)
code_control-IsCode (other t) = (refl, omega arith, refl)
code_control-IsCode (of_xray invalid_vless_user_id) = (refl, omega arith, refl)
code_control-IsCode (of_xray invalid_reality_public_key) = (refl, omega arith, refl)
code_control-IsCode (of_xray invalid_reality_short_id) = (refl, omega arith, refl)
code_control-IsCode (of_xray (generate_failed t)) = (refl, omega arith, refl)
code_control-IsCode (start_failed e) = (refl, omega arith, refl)
code_control-IsCode (child e) = (refl, omega arith, refl)
code_control-IsCode (of_profiles e) = (refl, omega arith, refl)

module _ {W : Type 0} (env : Environment W) where
  -- The report on the result of an operation.
  abbrev pub IsReport :
      Step W env.floats.F → W × Connection env.floats.F × Option CodedError → Type 0
  IsReport (w, c, none) (w', c', none) = (w' ≡ w) × (is_empty c'.last_err ≡ true) × (c'.sup ≡ c.sup)
  IsReport (w, c, some e) (w', c', some k) =
      (w' ≡ w) × (c'.last_err ≡ public_error e) × (c'.sup ≡ c.sup) × IsCode e k
  IsReport _ _ = ⊥

  -- `Control` fails just where its operation does; then the client gets a status of 400 or above with
  -- the error as its cause, and the status page a text that is not empty. Otherwise the text is empty.
  pub control-IsReport :
      (op : Text) (c : Connection env.floats.F) (w : W)
      → IsReport (control_op env op c w) (control env op c w)
  unfolding control reported
  control-IsReport op c w = report (control_op env op c w)
    where
      report : (r : Step W env.floats.F) → IsReport r (reported env r)
      report (w', c', none) = (refl, refl, refl)
      report (w', c', some e) = (refl, refl, refl, code_control-IsCode e)
