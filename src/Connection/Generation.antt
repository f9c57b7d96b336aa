-- ===== src/Connection/Generation.antt =====
-- src/internal/connection/service.go: `generatePair`, with the records of src/internal/xray that it
-- fills and the connection parameters of src/internal/subscription/types.go. `xray.Generate` is an
-- argument.
use blacktemple_kn.Prelude.{Bool, ◌||◌, if◌then◌else◌, List, ℤ, Text, codes, ◌⊎◌, inl, inr}
use blacktemple_kn.Strings.{contains}
use blacktemple_kn.Profiles.State.{Profile}
use blacktemple_kn.Connection.Candidates.{CandidatePair}
use blacktemple_kn.Connection.Errors.{
  Error, XrayError, generate_failed, unsupported_generated, of_xray,
}

pub record ConnectionParams : Type 0 where
  pub flow : Text
  pub sni : Text
  pub host : Text
  pub path : Text
  pub service_name : Text
  pub mode : Text
  pub alpn : List Text
  pub fingerprint : Text
  pub reality_public_key : Text
  pub short_id : Text
  pub spider_x : Text
  pub header_type : Text
  pub allow_insecure : Bool

-- `xray.Profile`
pub record XrayProfile : Type 0 where
  pub id : Text
  pub name : Text
  pub protocol : Text
  pub server : Text
  pub port : ℤ
  pub transport : Text
  pub security : Text
  pub country : Text

pub record OutboundParams : Type 0 where
  pub flow : Text
  pub sni : Text
  pub public_key : Text
  pub short_id : Text
  pub fingerprint : Text
  pub spider_x : Text
  pub path : Text
  pub host : Text
  pub service_name : Text
  pub alpn : List Text
  pub mode : Text
  pub allow_insecure : Bool

-- `xray.Generate` on a profile, the UUID, the parameters, and the host and port to listen on.
abbrev pub Generator : Type 0
Generator = XrayProfile → Text → OutboundParams → Text → ℤ → XrayError ⊎ Text

unfoldable pub xray_profile : Profile → CandidatePair ConnectionParams → XrayProfile
xray_profile p pair = record {
  id = p.id;
  name = p.name;
  protocol = pair.key.protocol;
  server = pair.srv.host;
  port = pair.srv.port;
  transport = pair.srv.transport;
  security = pair.srv.security;
  country = pair.srv.country_id;
}

unfoldable pub outbound_params : ConnectionParams → OutboundParams
outbound_params c = record {
  flow = c.flow;
  sni = c.sni;
  public_key = c.reality_public_key;
  short_id = c.short_id;
  fingerprint = c.fingerprint;
  spider_x = c.spider_x;
  path = c.path;
  host = c.host;
  service_name = c.service_name;
  alpn = c.alpn;
  mode = c.mode;
  allow_insecure = c.allow_insecure;
}

-- The texts of the three errors that are told apart hold neither word.
unfoldable pub generate_error : XrayError → Error
unfolding contains
generate_error (generate_failed t) =
    if contains t (codes "not generated") || contains t (codes "unsupported")
    then unsupported_generated t
    else of_xray (generate_failed t)
generate_error e = of_xray e

unfoldable pub generate_result : XrayError ⊎ Text → Error ⊎ Text
unfolding generate_error
generate_result (inl e) = inl (generate_error e)
generate_result (inr raw) = inr raw

unfoldable pub generate_pair :
    Generator → Text → ℤ → Profile → CandidatePair ConnectionParams → Error ⊎ Text
unfolding xray_profile outbound_params generate_result
generate_pair generate host port p pair =
    generate_result
      (generate (xray_profile p pair) pair.key.secret (outbound_params pair.key.params) host port)
