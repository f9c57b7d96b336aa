-- ===== src/RemoteLists/Limits.antt =====
-- src/internal/remotelists/limits.go, types.go. Times are seconds.
use blacktemple_kn.Prelude.{
  ℕ, Bool, true, false, ltb, if◌then◌else◌, ℤ, nonpositive, magnitude, Text,
}

-- A type that is none of the constants is `unknown_type`.
pub data ListType : Type 0 where
  domains cidrs countries servers telegram_ips whatsapp_ips provider_routing geosite_catalog :
      ListType
  unknown_type : Text → ListType

pub record Limits : Type 0 where
  pub max_bytes : ℕ
  pub max_line : ℕ
  pub max_lines : ℕ

abbrev pub medium : Limits
medium = record { max_bytes = 2097152; max_line = 2048; max_lines = 200000 }

abbrev pub small : Limits
small = record { max_bytes = 262144; max_line = 512; max_lines = 50000 }

unfoldable pub limits_for : ListType → Limits
limits_for provider_routing = medium
limits_for geosite_catalog = medium
limits_for _ = small

unfoldable pub effective_max_bytes : ListType → ℤ → ℕ
unfolding limits_for
effective_max_bytes t requested =
    let lim = (limits_for t).max_bytes in
    if nonpositive requested
    then lim
    else if ltb (magnitude requested) lim
    then magnitude requested
    else lim

unfoldable pub clamp_ttl : ℤ → ℕ
clamp_ttl d = if nonpositive d then 43200 else if ltb (magnitude d) 3600 then 3600 else magnitude d

unfoldable pub known_type : ListType → Bool
known_type (unknown_type t) = false
known_type _ = true
