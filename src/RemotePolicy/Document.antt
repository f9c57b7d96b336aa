-- ===== src/RemotePolicy/Document.antt =====
-- src/internal/remotepolicy/parse.go, types.go: a body is decoded into settings. The packages
-- encoding/json and net/url are parameters; a body is the list of its bytes.
use blacktemple_kn.Prelude.{
  Bool, ◌||◌, if◌then◌else◌, Option, none, some, List, [], ◌∷◌, ◌++◌, any, ℤ, Text, codes, text_eq,
  is_empty, ◌⊎◌, inl, inr,
}
use blacktemple_kn.Strings.{trim_space, to_lower, text_lt}
use blacktemple_kn.RemotePolicy.Settings.{Settings, no_settings}
use blacktemple_kn.RemotePolicy.Keys.{
  Key, ValueKind, kind_bool, kind_int, kind_string, kind_enum, kind_string_slice, kind_uri, kind,
  key_named, set_bool, set_int, set_string, set_uri,
}

-- `object` decodes a whole text as an object: its keys are distinct and stand in the order in which
-- the loop meets them. The others decode one value; for a slice the inner `none` is nil. `parse_url`
-- gives the scheme and the host.
pub record Decoder : Type 1 where
  pub Raw : Type 0
  pub object : Text → Option (List (Text × Raw))
  pub bool : Raw → Option Bool
  pub int : Raw → Option ℤ
  pub string : Raw → Option Text
  pub strings : Raw → Option (Option (List Text))
  pub parse_url : Text → Option (Text × Text)

pub data Error : Type 0 where
  invalid_json invalid_known_key untrusted_origin checksum_mismatch signature insecure : Error

pub record Issue : Type 0 where
  pub key : Text
  pub reason : Text

abbrev pub then_set {ℓ κ} : {A : Type ℓ} {B : Type κ} → Option A → (A → B) → Option B
then_set none f = none
then_set (some a) f = some (f a)

-- `enumOK`
unfoldable pub enum_ok : Text → List Text → Bool
enum_ok v allowed = any (text_eq v) allowed

abbrev pub route_actions : List Text
route_actions = codes "direct" ∷ codes "proxy" ∷ codes "block" ∷ []

-- A slice that is nil becomes an empty one.
abbrev pub or_empty : Option (List Text) → List Text
or_empty none = []
or_empty (some v) = v

-- `sort.Slice` by the key; the keys are distinct.
unfoldable pub insert_issue : Issue → List Issue → List Issue
unfolding text_lt
insert_issue i [] = i ∷ []
insert_issue i (j ∷ js) = if text_lt j.key i.key then j ∷ insert_issue i js else i ∷ j ∷ js

unfoldable pub sort_issues : List Issue → List Issue
unfolding insert_issue
sort_issues [] = []
sort_issues (i ∷ is) = insert_issue i (sort_issues is)

module _ (json : Decoder) where
  unfoldable pub http_url : Text → Text × Text → Option Text
  unfolding to_lower
  http_url v (scheme, host) =
      if is_empty scheme || is_empty host
      then none
      else if enum_ok (to_lower scheme) (codes "http" ∷ codes "https" ∷ [])
      then some v
      else none

  unfoldable pub parse_uri : json.Raw → Option Text
  unfolding http_url trim_space
  parse_uri raw = elim (json.string raw) [
    | none ↦ none
    | some v ↦ elim (json.parse_url (trim_space v)) [ none ↦ none | some u ↦ http_url v u ]
  ]

  unfoldable pub parse_enum : json.Raw → Option Text
  unfolding enum_ok
  parse_enum raw = elim (json.string raw) [
    | none ↦ none
    | some v ↦ if enum_ok v route_actions then some v else none
  ]

  -- `assign`; `none` is ErrInvalidKnownKey.
  unfoldable pub assign_as : ValueKind → Key → json.Raw → Settings → Option Settings
  unfolding set_bool set_int set_string set_uri parse_enum parse_uri
  assign_as kind_bool k raw s = then_set (json.bool raw) (λ v. set_bool k v s)
  assign_as kind_int k raw s = then_set (json.int raw) (λ v. set_int k v s)
  assign_as kind_string k raw s = then_set (json.string raw) (λ v. set_string k v s)
  assign_as kind_enum k raw s =
      then_set (parse_enum raw) (λ v. record s { custom_route_action = some v })
  assign_as kind_string_slice k raw s =
      then_set (json.strings raw) (λ v. record s { custom_route_domains = some (or_empty v) })
  assign_as kind_uri k raw s = then_set (parse_uri raw) (λ v. set_uri k v s)

  unfoldable pub assign : Key → json.Raw → Settings → Option Settings
  unfolding kind assign_as
  assign k raw s = assign_as (kind k) k raw s

  -- The loop of `Parse`.
  unfoldable pub assign_all :
      List (Text × json.Raw) → Settings → List Issue → Option (Settings × List Issue)
  unfolding key_named assign
  assign_all [] s ignored = some (s, ignored)
  assign_all ((k, raw) ∷ rest) s ignored = elim (key_named k) [
    | none ↦
        assign_all rest s (ignored ++ record { key = k; reason = codes "unknown key ignored" } ∷ [])
    | some key ↦ elim (assign key raw s) [ none ↦ none | some s' ↦ assign_all rest s' ignored ]
  ]

  unfoldable pub parse_object : Option (List (Text × json.Raw)) → Error ⊎ (Settings × List Issue)
  unfolding assign_all sort_issues
  parse_object none = inl invalid_json
  parse_object (some entries) = elim (assign_all entries no_settings []) [
    | none ↦ inl invalid_known_key
    | some (s, ignored) ↦ inr (s, sort_issues ignored)
  ]

  -- The settings and the ignored keys of the document.
  unfoldable pub parse : Text → Error ⊎ (Settings × List Issue)
  unfolding trim_space parse_object
  parse body =
      let trimmed = trim_space body in
      if is_empty trimmed then inl invalid_json else parse_object (json.object trimmed)
