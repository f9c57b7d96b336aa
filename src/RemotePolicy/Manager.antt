-- ===== src/RemotePolicy/Manager.antt =====
-- src/internal/remotepolicy/integrity.go, manager.go: a body is trusted, parsed and stored below the
-- user's own settings. The hash and the signature of Go's crypto packages are parameters.
use blacktemple_kn.Prelude.{
  Bool, true, false, not, ◌||◌, ◌&&◌, ◌==◌, if◌then◌else◌, Option, none, some, List, length, Text,
  text_eq, is_empty, ◌⊎◌, inl, inr,
}
use blacktemple_kn.Strings.{trim_space, to_lower}
use blacktemple_kn.RemotePolicy.Settings.{Settings, no_settings, merge}
use blacktemple_kn.RemotePolicy.Document.{
  Decoder, Error, untrusted_origin, checksum_mismatch, signature, insecure, Issue, parse,
}

-- `sha256_hex` prints the hash of a body; `verify` takes the key, the body and the signature.
pub record Crypto : Type 0 where
  pub sha256_hex : Text → Text
  pub verify : Text → Text → Text → Bool

pub data OriginKind : Type 0 where
  trusted_provider user_configured : OriginKind
  other : Text → OriginKind

pub record Origin : Type 0 where
  pub kind : OriginKind
  pub url : Text
  pub trusted : Bool

pub data IntegrityStatus : Type 0 where
  tls_only checksum_pinned signature_verified : IntegrityStatus

pub record IntegrityInput : Type 0 where
  pub tls : Bool
  pub sha256_pin : Text
  pub signature : Text
  pub public_key : Text

-- `none` where nothing was applied yet.
pub record Document : Type 0 where
  pub settings : Settings
  pub origin : Origin
  pub integrity : IntegrityStatus
  pub ignored : List Issue

pub record Manager : Type 0 where
  pub builtin : Settings
  pub remote : Settings
  pub local : Settings
  pub session : Settings
  pub doc : Option Document

abbrev is_known : OriginKind → Bool
is_known (other t) = false
is_known _ = true

unfoldable pub allowed : Origin → Bool
allowed o = o.trusted && is_known o.kind

unfoldable pub classify_integrity : Crypto → Text → IntegrityInput → Error ⊎ IntegrityStatus
unfolding trim_space to_lower
classify_integrity crypto body i =
    let pin = to_lower (trim_space i.sha256_pin) in
    if not (is_empty i.public_key) || not (is_empty i.signature)
    then (if not (length i.public_key == 32) || not (length i.signature == 64)
        then inl signature
        else if crypto.verify i.public_key body i.signature
        then inr signature_verified
        else inl signature)
    else if not (is_empty pin)
    then (if text_eq (crypto.sha256_hex body) pin
        then inr checksum_pinned
        else inl checksum_mismatch)
    else if i.tls
    then inr tls_only
    else inl insecure

unfoldable pub new_manager : Settings → Manager
new_manager builtin = record {
  builtin = builtin;
  remote = no_settings;
  local = no_settings;
  session = no_settings;
  doc = none;
}

unfoldable pub set_local : Settings → Manager → Manager
set_local s m = record m { local = s }

unfoldable pub set_session : Settings → Manager → Manager
set_session s m = record m { session = s }

unfoldable pub clear_session : Manager → Manager
clear_session m = record m { session = no_settings }

unfoldable pub effective : Manager → Settings
unfolding merge
effective m = merge m.builtin m.remote m.local m.session

module _ (json : Decoder) (crypto : Crypto) where
  -- `ApplyRemote` once the body is authenticated.
  unfoldable pub apply_parsed :
      Origin → IntegrityStatus → Error ⊎ (Settings × List Issue) → Manager → Manager × Option Error
  apply_parsed o status (inl e) m = (m, some e)
  apply_parsed o status (inr (s, ignored)) m = (
    record m {
      remote = s;
      doc = some (record { settings = s; origin = o; integrity = status; ignored = ignored });
    },
    none,
  )

  -- The document that is returned is the one that is stored.
  unfoldable pub apply_remote : Origin → Text → IntegrityInput → Manager → Manager × Option Error
  unfolding allowed classify_integrity parse apply_parsed
  apply_remote o body i m =
      if not (allowed o)
      then (m, some untrusted_origin)
      else (elim (classify_integrity crypto body i) [
        | inl e ↦ (m, some e)
        | inr status ↦ apply_parsed o status (parse json body) m
      ])
