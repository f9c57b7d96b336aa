-- ===== src/Profiles/Loading.antt =====
-- src/internal/profiles/persist.go: what is read from the store, whatever it holds, is in order.
use blacktemple_kn.Prelude.{
  ◌==◌, Bool, true, false, ◌||◌, if◌then◌else◌, Option, none, some, is_some, List, [], ◌∷◌, ◌++◌,
  All-append, Text, text_eq, text_eq_cases, is_empty, codes, get_or, ◌⊎◌, inl, inr, ◌≡◌, refl, sym,
  ap, ◌∙◌, arith, Bool-cases, if-both,
}
use blacktemple_kn.Keys.State.{no_active, no_lkg, import_state}
use blacktemple_kn.Profiles.State.{Entry, Memory, find_entry, no_memory, resolution_of}
use blacktemple_kn.Profiles.Store.{
  ProfileStore, StoreFile, Contents, missing, unreadable, blank, malformed, file, LoadError,
  kind_of, decode_keys, decode_profile, decode_profiles, checked_active, decode_store,
  load_contents,
}
use blacktemple_kn.Profiles.Invariant.{
  IsBlank, IsEntry, AllEntries, ids, DistinctIds, IsActive, IsMemory,
}
use blacktemple_kn.Profiles.EntryMade.{resolution_of-full}

get_or-IsBlank :
    {A : Type 0} (o : Option A) (b : Bool) (d : A) → IsBlank (is_some o || b) (get_or d o) d
get_or-IsBlank none true d = tt
get_or-IsBlank none false d = refl
get_or-IsBlank (some a) b d = tt

kind_of-full : (kind : Text) → is_empty (kind_of kind) ≡ false
unfolding kind_of
kind_of-full kind =
    let Q : Text → Type 0 = (λ t. is_empty t ≡ false) in
    if-both Q (text_eq kind (codes "url")) refl (if-both Q (text_eq kind (codes "json")) refl refl)

or_full : (t d : Text) → is_empty d ≡ false → is_empty (if is_empty t then d else t) ≡ false
or_full [] d h = h
or_full (c ∷ cs) d h = refl

module _ {P : Type 0} where
  decode_profile-IsEntry :
      (p : ProfileStore P) → is_empty p.id ≡ false → IsEntry p.id (decode_profile p)
  unfolding decode_profile import_state decode_keys
  decode_profile-IsEntry p full = record {
    named = full;
    profile_id = refl;
    keys_id = refl;
    source_kind =
        or_full p.source_kind (kind_of p.subscription.kind) (kind_of-full p.subscription.kind);
    resolution = or_full p.resolution_state (resolution_of p.keys) (resolution_of-full p.keys);
    active = get_or-IsBlank p.active p.has_active no_active;
    lkg = get_or-IsBlank p.lkg p.has_lkg no_lkg;
  }

  ids-append :
      (es : List (Text × Entry P)) (id : Text) (e : Entry P)
      → ids (es ++ (id, e) ∷ []) ≡ ids es ++ id ∷ []
  ids-append [] id e = refl
  ids-append ((i, x) ∷ es) id e = ap (λ r. i ∷ r) (ids-append es id e)

  append-DistinctIds :
      (es : List (Text × Entry P)) (id : Text) (e : Entry P)
      → DistinctIds es
      → is_some (find_entry id es) ≡ false
      → DistinctIds (es ++ (id, e) ∷ [])
  unfolding find_entry
  append-DistinctIds [] id e d n = (tt, tt)
  append-DistinctIds ((i, x) ∷ es) id e d n = elim (text_eq_cases i id) [
    | inl (y, same) ↦ ground (arith, y, n)
    | inr z ↦ (
      All-append (λ p. text_eq i p.0 ≡ false) es ((id, e) ∷ []) d.0 (z, tt),
      append-DistinctIds es id e d.1 (ground (arith, z, n)),
    )
  ]

  -- `IsMemory` but for the active id.
  abbrev IsBuilt : Memory P → Type 0
  IsBuilt m = AllEntries m.by_id × (DistinctIds m.by_id × (m.order ≡ ids m.by_id))

  abbrev IsBuiltOr : Option (Memory P) → Type 0
  IsBuiltOr none = Unit
  IsBuiltOr (some m) = IsBuilt m

  decode_profiles-IsBuilt :
      (ps : List (ProfileStore P)) (m : Memory P) → IsBuilt m → IsBuiltOr (decode_profiles ps m)
  unfolding decode_profiles
  decode_profiles-IsBuilt [] m h = h
  decode_profiles-IsBuilt (p ∷ ps) m h = elim (Bool-cases (is_empty p.id)) [
    | inl y ↦ rw (decode_profiles, y) tt
    | inr full ↦
        rw (decode_profiles, full)
          (decode_profiles-IsBuilt ps _ (elim (Bool-cases (is_some (find_entry p.id m.by_id))) [
            | inl y ↦ rw y h
            | inr n ↦ rw n (
              All-append (λ q. IsEntry q.0 q.1) m.by_id ((p.id, decode_profile p) ∷ []) h.0
                  (decode_profile-IsEntry p full, tt),
              (
                append-DistinctIds m.by_id p.id (decode_profile p) h.1.0 n,
                ap (λ os. os ++ p.id ∷ []) h.1.1 ∙ sym (ids-append m.by_id p.id (decode_profile p)),
              ),
            )
          ]))
  ]

  checked_active-IsMemory : (m : Memory P) → IsBuilt m → IsMemory (checked_active m)
  unfolding checked_active
  checked_active-IsMemory m h = checked m.active_id
    where
      with_active : (a : Text) → IsActive a m.by_id → IsMemory (record m { active_id = a })
      with_active a g = record { entries = h.0; distinct = h.1.0; ordered = h.1.1; active = g }

      checked :
          (a : Text)
          → IsMemory (
              if is_empty a || is_some (find_entry a m.by_id)
              then record m { active_id = a }
              else record m { active_id = [] })
      checked [] = with_active [] tt
      checked (c ∷ cs) = elim (Bool-cases (is_some (find_entry (c ∷ cs) m.by_id))) [
        | inl y ↦ rw y (with_active (c ∷ cs) y)
        | inr n ↦ rw n (with_active [] tt)
      ]

  -- What a load gives, where it has no error.
  abbrev pub Loads : LoadError ⊎ Memory P → Type 0
  Loads (inl e) = Unit
  Loads (inr m) = IsMemory m

  decode_store-Loads : (f : StoreFile P) → Loads (decode_store f)
  unfolding decode_store
  decode_store-Loads f = loaded _ (
      decode_profiles-IsBuilt f.profiles (record no_memory { active_id = f.active_profile_id })
        (tt, (tt, refl)))
    where
      loaded :
          (o : Option (Memory P))
          → IsBuiltOr o
          → Loads (elim o as (λ _. LoadError ⊎ Memory P) [
            | none ↦ inl LoadError.corrupt_store
            | some m ↦ inr (checked_active m)
          ])
      loaded none h = tt
      loaded (some m) h = checked_active-IsMemory m h

  pub no_memory-IsMemory : IsMemory (no_memory {P = P})
  no_memory-IsMemory = record { entries = tt; distinct = tt; ordered = refl; active = tt }

  -- Whatever stands in the store, a load without an error gives a memory in order: distinct ids that
  -- are not empty, in the order of the list, each profile under its id, and an active id that is there.
  pub load_contents-Loads : (c : Contents P) → Loads (load_contents c)
  unfolding load_contents
  load_contents-Loads missing = no_memory-IsMemory
  load_contents-Loads unreadable = tt
  load_contents-Loads blank = no_memory-IsMemory
  load_contents-Loads malformed = tt
  load_contents-Loads (file f) = if-both Loads (f.version == 1) (decode_store-Loads f) tt
