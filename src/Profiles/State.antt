-- ===== src/Profiles/State.antt =====
-- src/internal/profiles: the records of the service (profile.go, service.go, persist.go), with the
-- subscription and the share entries of src/internal/subscription/types.go. Times are numbers, and
-- `P` is the type of the connection parameters. A map from ids is a list of pairs.
use blacktemple_kn.Prelude.{
  ℕ, Bool, if◌then◌else◌, Option, none, some, List, [], ◌∷◌, ℤ, Text, text_eq, codes,
}
use blacktemple_kn.Keys.State.{State, import_state, export}
use blacktemple_kn.Servers.Select.{Server}

pub record Profile : Type 0 where
  pub id : Text
  pub name : Text
  pub subscription_id : Text
  pub created_at : ℕ
  pub source_kind : Text
  pub resolution_state : Text

pub record Subscription : Type 0 where
  pub id : Text
  pub profile_id : Text
  pub kind : Text
  pub content_type : Text
  pub encoding : Text
  pub entry_count : ℕ
  pub fetched_at : ℕ
  pub source : Text

-- `ParsedShare`, without the names of its fields.
pub record ParsedShare (P : Type 0) : Type 0 where
  pub protocol : Text
  pub host : Text
  pub port : ℤ
  pub transport : Text
  pub security : Text
  pub remark : Text
  pub country_hint : Text
  pub stable_id : Text
  pub params : P
  pub secret : Text

-- `record`
pub record Entry (P : Type 0) : Type 0 where
  pub profile : Profile
  pub sub : Subscription
  pub keys : State P
  pub servers : List Server

pub record Memory (P : Type 0) : Type 0 where
  pub by_id : List (Text × Entry P)
  pub order : List Text
  pub active_id : Text

-- `has_store` says that there is a path for the store.
pub record Service (P : Type 0) : Type 0 where
  pub memory : Memory P
  pub has_store : Bool
  pub persist_blocked : Bool

-- `resolutionOf`
unfoldable pub resolution_of {ℓ} : {A : Type ℓ} → List A → Text
resolution_of [] = codes "unresolved"
resolution_of (k ∷ ks) = codes "resolved"

abbrev pub no_memory : {P : Type 0} → Memory P
no_memory = record { by_id = []; order = []; active_id = [] }

module _ {P : Type 0} where
  -- `byID[id]`
  unfoldable pub find_entry : Text → List (Text × Entry P) → Option (Entry P)
  find_entry id [] = none
  find_entry id ((i, e) ∷ es) = if text_eq i id then some e else find_entry id es

  -- `byID[id] = rec`
  unfoldable pub put_entry : Text → Entry P → List (Text × Entry P) → List (Text × Entry P)
  put_entry id new [] = (id, new) ∷ []
  put_entry id new ((i, e) ∷ es) =
      if text_eq i id then (i, new) ∷ es else (i, e) ∷ put_entry id new es

  -- `cloneRecord`
  unfoldable pub clone_entry : Entry P → Entry P
  unfolding import_state export
  clone_entry e = record e { keys = import_state (export e.keys) }

  unfoldable pub clone_entries : List (Text × Entry P) → List (Text × Entry P)
  unfolding clone_entry
  clone_entries [] = []
  clone_entries ((i, e) ∷ es) = (i, clone_entry e) ∷ clone_entries es

  unfoldable pub clone : Memory P → Memory P
  unfolding clone_entries
  clone m = record m { by_id = clone_entries m.by_id }
