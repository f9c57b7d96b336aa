-- ===== src/Profiles/Store.antt =====
-- src/internal/profiles/persist.go: the file of the store, written and read. What encoding/json and
-- the file system do is the parameter `Storage`.
use blacktemple_kn.Prelude.{
  ℤ, ℕ, ◌==◌, Bool, true, false, ◌||◌, if◌then◌else◌, Option, none, some, is_some, List, [], ◌∷◌,
  ◌++◌, Text, text_eq, is_empty, codes, get_or, ◌⊎◌, inl, inr,
}
use blacktemple_kn.Keys.State.{
  Key, ConnectionCandidate, LastKnownGood, StateSnapshot, no_active, no_lkg, export, import_state,
}
use blacktemple_kn.Servers.Select.{Server}
use blacktemple_kn.Profiles.State.{
  Subscription, Entry, Memory, Service, resolution_of, no_memory, find_entry,
}

-- The stores of keys, servers, candidates and the subscription have the fields of the types that
-- they store, so these stand for them.
pub record ProfileStore (P : Type 0) : Type 0 where
  pub id : Text
  pub name : Text
  pub subscription_id : Text
  pub created_at : ℕ
  pub source_kind : Text
  pub resolution_state : Text
  pub subscription : Subscription
  pub keys : List (Key P)
  pub servers : List Server
  pub active : Option ConnectionCandidate
  pub has_active : Bool
  pub lkg : Option LastKnownGood
  pub has_lkg : Bool
  pub rotate_at : ℤ

pub record StoreFile (P : Type 0) : Type 0 where
  pub version : ℕ
  pub active_profile_id : Text
  pub profiles : List (ProfileStore P)

-- What is found at the path of the store.
pub data Contents (P : Type 0) : Type 0 where
  missing unreadable blank malformed : Contents P
  file : StoreFile P → Contents P

pub record Storage (P W : Type 0) : Type 0 where
  pub write : StoreFile P → W → W × Option Text
  pub read : W → Contents P

pub data LoadError : Type 0 where
  read_failed corrupt_store unsupported_version : LoadError

abbrev pub only_if {ℓ} : {A : Type ℓ} → Bool → A → Option A
only_if true a = some a
only_if false a = none

-- `pkind`, where the file has none.
unfoldable pub kind_of : Text → Text
kind_of kind =
    if text_eq kind (codes "url")
    then codes "blackkey"
    else if text_eq kind (codes "json")
    then codes "json"
    else codes "share"

module _ {P : Type 0} where
  unfoldable pub encode_profile : Entry P → ProfileStore P
  unfolding export
  encode_profile e =
      let snap = export e.keys in
      record {
        id = e.profile.id;
        name = e.profile.name;
        subscription_id = e.profile.subscription_id;
        created_at = e.profile.created_at;
        source_kind = e.profile.source_kind;
        resolution_state = e.profile.resolution_state;
        subscription = e.sub;
        keys = snap.keys;
        servers = e.servers;
        active = only_if snap.has_active snap.active;
        has_active = snap.has_active;
        lkg = only_if snap.has_lkg snap.lkg;
        has_lkg = snap.has_lkg;
        rotate_at = snap.rotate_at;
      }

  -- The loop over the order.
  unfoldable pub encode_profiles : List Text → List (Text × Entry P) → List (ProfileStore P)
  unfolding find_entry encode_profile
  encode_profiles [] es = []
  encode_profiles (id ∷ ids) es =
      let rest = encode_profiles ids es in
      elim (find_entry id es) [ none ↦ rest | some e ↦ encode_profile e ∷ rest ]

  unfoldable pub encode_store : Memory P → StoreFile P
  unfolding encode_profiles
  encode_store m = record {
    version = 1;
    active_profile_id = m.active_id;
    profiles = encode_profiles m.order m.by_id;
  }

  unfoldable pub decode_keys : ProfileStore P → StateSnapshot P
  decode_keys p = record {
    profile_id = p.id;
    keys = p.keys;
    active = get_or no_active p.active;
    has_active = is_some p.active || p.has_active;
    lkg = get_or no_lkg p.lkg;
    has_lkg = is_some p.lkg || p.has_lkg;
    rotate_at = p.rotate_at;
  }

  unfoldable pub decode_profile : ProfileStore P → Entry P
  unfolding import_state decode_keys kind_of resolution_of
  decode_profile p = record {
    profile = record {
      id = p.id;
      name = p.name;
      subscription_id = p.subscription_id;
      created_at = p.created_at;
      source_kind = if is_empty p.source_kind then kind_of p.subscription.kind else p.source_kind;
      resolution_state =
          if is_empty p.resolution_state then resolution_of p.keys else p.resolution_state;
    };
    sub = p.subscription;
    keys = import_state (decode_keys p);
    servers = p.servers;
  }

  -- The loop of `decodeStore`; `m` is what was read so far.
  unfoldable pub decode_profiles : List (ProfileStore P) → Memory P → Option (Memory P)
  unfolding find_entry decode_profile
  decode_profiles [] m = some m
  decode_profiles (p ∷ ps) m =
      if is_empty p.id
      then none
      else decode_profiles ps (
          if is_some (find_entry p.id m.by_id) then m else record m {
            by_id = m.by_id ++ (p.id, decode_profile p) ∷ [];
            order = m.order ++ p.id ∷ [];
          })

  unfoldable pub checked_active : Memory P → Memory P
  unfolding find_entry
  checked_active m =
      if is_empty m.active_id || is_some (find_entry m.active_id m.by_id)
      then m
      else record m { active_id = [] }

  unfoldable pub decode_store : StoreFile P → LoadError ⊎ Memory P
  unfolding decode_profiles checked_active
  decode_store f =
      elim (decode_profiles f.profiles (record no_memory { active_id = f.active_profile_id })) [
        | none ↦ inl corrupt_store
        | some m ↦ inr (checked_active m)
      ]

  unfoldable pub load_contents : Contents P → LoadError ⊎ Memory P
  unfolding decode_store
  load_contents missing = inr no_memory
  load_contents unreadable = inl read_failed
  load_contents blank = inr no_memory
  load_contents malformed = inl corrupt_store
  load_contents (file f) = if f.version == 1 then decode_store f else inl unsupported_version

  -- `New`
  unfoldable pub opened : LoadError ⊎ Memory P → Service P
  opened (inl e) = record { memory = no_memory; has_store = true; persist_blocked = true }
  opened (inr m) = record { memory = m; has_store = true; persist_blocked = false }

  unfoldable pub new_service : {W : Type 0} → Storage P W → Bool → W → Service P
  unfolding load_contents opened
  new_service storage false w = record {
    memory = no_memory;
    has_store = false;
    persist_blocked = false;
  }
  new_service storage true w = opened (load_contents (storage.read w))
