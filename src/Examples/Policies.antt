-- ===== src/Examples/Policies.antt =====
-- The theorems on remote policies at concrete inputs.
use blacktemple_kn.Prelude.{
  true, false, none, some, [], ◌∷◌, pos, Text, codes, text_eq, if◌then◌else◌,
}
use blacktemple_kn.RemotePolicy.Settings.{Settings, no_settings, built_in_defaults}
use blacktemple_kn.RemotePolicy.Document.{Decoder}
use blacktemple_kn.RemotePolicy.Manager.{
  Crypto, Origin, trusted_provider, IntegrityInput, Manager, new_manager, set_local, apply_remote,
}
use blacktemple_kn.RemotePolicy.Precedence.{IsApplied, apply_remote-IsApplied}

-- Every text is the object with a known and an unknown key; a value is a text, of which some are
-- numbers.
abbrev toy : Decoder
toy = record {
  Raw = Text;
  object = λ t. some ((codes "x-mtu", t) ∷ (codes "x-new", t) ∷ []);
  bool = λ r. none;
  int = λ r. if text_eq r (codes "1400") then some (pos 1400) else none;
  string = λ r. some r;
  strings = λ r. none;
  parse_url = λ t. none;
}

abbrev no_crypto : Crypto
no_crypto = record { sha256_hex = λ b. []; verify = λ k b s. false }

abbrev origin : Origin
origin = record { kind = trusted_provider; url = codes "https://example.org"; trusted = true }

abbrev over_tls : IntegrityInput
over_tls = record { tls = true; sha256_pin = []; signature = []; public_key = [] }

abbrev mine : Settings
mine = record no_settings { mtu = some (pos 1280) }

abbrev manager : Manager
manager = set_local mine (new_manager built_in_defaults)

apply_remote-IsApplied_example :
    IsApplied toy no_crypto origin
      (codes "1400")
      over_tls
      manager
      (apply_remote toy no_crypto origin (codes "1400") over_tls manager)
apply_remote-IsApplied_example =
    apply_remote-IsApplied toy no_crypto origin (codes "1400") over_tls manager
