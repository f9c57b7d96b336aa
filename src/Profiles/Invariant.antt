-- ===== src/Profiles/Invariant.antt =====
-- src/internal/profiles: what holds of the memory of the service.
use blacktemple_kn.Prelude.{
  Bool, true, false, is_some, List, [], ◌∷◌, All, Distinct, Text, is_empty, ◌≡◌,
}
use blacktemple_kn.Keys.State.{no_active, no_lkg}
use blacktemple_kn.Profiles.State.{Entry, Memory, find_entry}

-- A candidate that is not there has no content.
abbrev pub IsBlank {ℓ} : {A : Type ℓ} → Bool → A → A → Type ℓ
IsBlank true a b = Unit
IsBlank false a b = a ≡ b

-- The entry of an id: the id is not empty, the profile and its keys have it, the profile says where
-- it is from and whether it is resolved, and what is not set is empty.
pub record IsEntry {P : Type 0} (id : Text) (e : Entry P) : Type 0 where
  pub named : is_empty id ≡ false
  pub profile_id : e.profile.id ≡ id
  pub keys_id : e.keys.profile_id ≡ id
  pub source_kind : is_empty e.profile.source_kind ≡ false
  pub resolution : is_empty e.profile.resolution_state ≡ false
  pub active : IsBlank e.keys.has_active e.keys.active no_active
  pub lkg : IsBlank e.keys.has_lkg e.keys.lkg no_lkg

module _ {P : Type 0} where
  abbrev pub AllEntries : List (Text × Entry P) → Type 0
  AllEntries = All (λ (p : Text × Entry P). IsEntry p.0 p.1)

  abbrev pub ids : List (Text × Entry P) → List Text
  ids [] = []
  ids ((i, e) ∷ es) = i ∷ ids es

  abbrev pub DistinctIds : List (Text × Entry P) → Type 0
  DistinctIds = Distinct (λ (p : Text × Entry P). p.0)

  -- The active profile is one that is there.
  abbrev pub IsActive : Text → List (Text × Entry P) → Type 0
  IsActive [] es = Unit
  IsActive (c ∷ cs) es = is_some (find_entry (c ∷ cs) es) ≡ true

  pub record IsMemory (m : Memory P) : Type 0 where
    pub entries : AllEntries m.by_id
    pub distinct : DistinctIds m.by_id
    pub ordered : m.order ≡ ids m.by_id
    pub active : IsActive m.active_id m.by_id
