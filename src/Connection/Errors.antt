-- ===== src/Connection/Errors.antt =====
-- src/internal/connection: the errors (errors.go), and what the client is told of them (service.go,
-- httperr.go).
use blacktemple_kn.Prelude.{ℕ, [], Text, codes}
use blacktemple_kn.Supervisor.Regions
use blacktemple_kn.Profiles.Service

-- The errors of xray.Generate that the service tells apart, and the others with their text.
pub data XrayError : Type 0 where
  invalid_vless_user_id invalid_reality_public_key invalid_reality_short_id : XrayError
  generate_failed : Text → XrayError

-- An error that wraps another has its text.
pub data Error : Type 0 where
  no_profile no_candidate blackkey_resolution_required unsupported_in_environment not_connected
        unknown_op not_running unsupported_protocol :
      Error
  unsupported_generated missing_xray validate other : Text → Error
  of_xray : XrayError → Error
  start_failed child : Regions.Error → Error
  of_profiles : Service.Error → Error

-- `publicError`
unfoldable pub public_error : Error → Text
public_error no_profile = codes "no profile"
public_error blackkey_resolution_required = codes "blackkey resolution required"
public_error no_candidate = codes "no candidate"
public_error unsupported_protocol = codes "unsupported protocol"
public_error (unsupported_generated t) = codes "unsupported protocol"
public_error (missing_xray t) = codes "xray missing"
public_error (validate t) = codes "invalid xray config"
public_error (start_failed e) = codes "xray start failed"
public_error not_running = codes "xray start failed"
public_error unsupported_in_environment = codes "unsupported in current environment"
public_error not_connected = codes "not connected"
public_error (of_xray invalid_vless_user_id) = codes "invalid vless user id"
public_error (of_xray invalid_reality_public_key) = codes "invalid reality public key"
public_error (of_xray invalid_reality_short_id) = codes "invalid reality short id"
public_error _ = codes "control failed"

unfoldable pub classify_control : Error → Text
classify_control blackkey_resolution_required = codes "BLACKKEY_RESOLUTION_REQUIRED"
classify_control (of_xray invalid_vless_user_id) = codes "INVALID_VLESS_USER_ID"
classify_control (of_xray invalid_reality_public_key) = codes "INVALID_REALITY_PUBLIC_KEY"
classify_control (of_xray invalid_reality_short_id) = codes "INVALID_REALITY_SHORT_ID"
classify_control (validate t) = codes "XRAY_CONFIG_REJECTED"
classify_control _ = []

-- `codedError`
pub record CodedError : Type 0 where
  pub status : ℕ
  pub msg : Text
  pub cause : Error

abbrev coded : ℕ → Error → CodedError
coded status e = record { status = status; msg = public_error e; cause = e }

-- The errors of `Control` have no code yet.
unfoldable pub code_control : Error → CodedError
unfolding public_error
code_control unsupported_in_environment = record {
  status = 501;
  msg = codes "not implemented";
  cause = unsupported_in_environment;
}
code_control no_profile = coded 400 no_profile
code_control no_candidate = coded 400 no_candidate
code_control unsupported_protocol = coded 400 unsupported_protocol
code_control (unsupported_generated t) = coded 400 (unsupported_generated t)
code_control (validate t) = coded 400 (validate t)
code_control not_connected = coded 400 not_connected
code_control (of_xray invalid_vless_user_id) = coded 400 (of_xray invalid_vless_user_id)
code_control (of_xray invalid_reality_public_key) = coded 400 (of_xray invalid_reality_public_key)
code_control (of_xray invalid_reality_short_id) = coded 400 (of_xray invalid_reality_short_id)
code_control blackkey_resolution_required = coded 409 blackkey_resolution_required
code_control (missing_xray t) = coded 500 (missing_xray t)
code_control (start_failed e) = coded 500 (start_failed e)
code_control not_running = coded 500 not_running
code_control e = record { status = 500; msg = codes "control failed"; cause = e }
