-- ===== src/Profiles/Roundtrip.antt =====
-- src/internal/profiles/persist.go: what is written is read back.
use blacktemple_kn.Prelude.{
  Bool, true, false, ◌||◌, if◌then◌else◌, none, some, is_some, List, [], ◌∷◌, ◌++◌, All, All-zip,
  All-middle, Text, text_eq, text_eq_refl, is_empty, get_or, inr, ◌≡◌, refl, sym, ap, ◌∙◌, subst,
}
use mathlib.Core.List.{append_assoc, append-nil}
use blacktemple_kn.Keys.State.{no_active, no_lkg, export, import_state}
use blacktemple_kn.Keys.Rollback.{import_state-export}
use blacktemple_kn.Profiles.State.{Entry, Memory, find_entry, no_memory}
use blacktemple_kn.Profiles.Store.{
  ProfileStore, encode_profile, encode_profiles, encode_store, only_if, decode_keys, decode_profile,
  decode_profiles, checked_active, decode_store, load_contents, file,
}
use blacktemple_kn.Profiles.Invariant.{
  IsBlank, IsEntry, AllEntries, ids, DistinctIds, IsActive, IsMemory,
}

only_if-lem : {A : Type 0} (b : Bool) (a d : A) → IsBlank b a d → get_or d (only_if b a) ≡ a
only_if-lem true a d h = refl
only_if-lem false a d h = sym h

only_if-is_some : {A : Type 0} (b : Bool) (a : A) → (is_some (only_if b a) || b) ≡ b
only_if-is_some true a = refl
only_if-is_some false a = refl

module _ {P : Type 0} where
  decode_keys-export :
      (id : Text) (e : Entry P) → IsEntry id e → decode_keys (encode_profile e) ≡ export e.keys
  unfolding decode_keys encode_profile export
  decode_keys-export id e h =
      rw
        (
          only_if-lem e.keys.has_active e.keys.active no_active h.active,
          only_if-lem e.keys.has_lkg e.keys.lkg no_lkg h.lkg,
          only_if-is_some e.keys.has_active e.keys.active,
          only_if-is_some e.keys.has_lkg e.keys.lkg,
          h.profile_id,
          h.keys_id,
        )
        refl

  decode_profile-encode :
      (id : Text) (e : Entry P) → IsEntry id e → decode_profile (encode_profile e) ≡ e
  unfolding decode_profile encode_profile
  decode_profile-encode id e h =
      rw (h.source_kind, h.resolution)
        (ap (λ s. record e { keys = s })
          (ap import_state (decode_keys-export id e h) ∙ import_state-export e.keys))

  encode_profile-id : (id : Text) (e : Entry P) → IsEntry id e → (encode_profile e).id ≡ id
  unfolding encode_profile
  encode_profile-id id e h = h.profile_id

  -- Each entry is found under its id.
  find_entry-All :
      (es : List (Text × Entry P))
      → DistinctIds es
      → All (λ (p : Text × Entry P). find_entry p.0 es ≡ some p.1) es
  unfolding find_entry
  find_entry-All [] d = tt
  find_entry-All ((i, e) ∷ es) d = (
    rw (text_eq_refl i) refl,
    All-zip (λ p differs found. rw differs found) es d.0 (find_entry-All es d.1),
  )

  encode_all : List (Text × Entry P) → List (ProfileStore P)
  encode_all [] = []
  encode_all ((i, e) ∷ es) = encode_profile e ∷ encode_all es

  encode_profiles-ids :
      (all es : List (Text × Entry P))
      → All (λ (p : Text × Entry P). find_entry p.0 all ≡ some p.1) es
      → encode_profiles (ids es) all ≡ encode_all es
  unfolding encode_profiles encode_all
  encode_profiles-ids all [] h = refl
  encode_profiles-ids all ((i, e) ∷ es) h =
      rw (encode_profiles, h.0) (ap (λ r. encode_profile e ∷ r) (encode_profiles-ids all es h.1))

  -- An id that differs from those before it is not found among them.
  pub find_entry-before :
      (done : List (Text × Entry P)) (i : Text) (e : Entry P) (es : List (Text × Entry P))
      → DistinctIds (done ++ (i, e) ∷ es)
      → find_entry i done ≡ none
  unfolding find_entry
  find_entry-before [] i e es d = refl
  find_entry-before ((j, f) ∷ done) i e es d =
      rw (All-middle (λ (p : Text × Entry P). text_eq j p.0 ≡ false) done (i, e) es d.0)
        (find_entry-before done i e es d.1)

  decode_profiles-encode :
      (done es : List (Text × Entry P)) (order : List Text) (active : Text)
      → AllEntries es
      → DistinctIds (done ++ es)
      → decode_profiles (encode_all es) (record { by_id = done; order = order; active_id = active })
        ≡ some (record { by_id = done ++ es; order = order ++ ids es; active_id = active })
  unfolding decode_profiles encode_all
  decode_profiles-encode done [] order active h d = rw (append-nil done, append-nil order) refl
  decode_profiles-encode done ((i, e) ∷ es) order active h d =
      let shifted = subst DistinctIds (sym (append_assoc done ((i, e) ∷ []) es)) d in
      let back =
        decode_profiles-encode (done ++ (i, e) ∷ []) es (order ++ i ∷ []) active h.1 shifted in
      let entry = h.0 in
      rw
        (
          decode_profiles,
          decode_profile-encode i e entry,
          encode_profile-id i e entry,
          entry.named,
          find_entry-before done i e es d,
        )
        (back
          ∙ ap (λ bs. some (memory bs ((order ++ i ∷ []) ++ ids es)))
              (append_assoc done ((i, e) ∷ []) es)
          ∙ ap (λ os. some (memory (done ++ (i, e) ∷ es) os))
              (append_assoc order (i ∷ []) (ids es)))
    where
      memory : List (Text × Entry P) → List Text → Memory P
      memory bs os = record { by_id = bs; order = os; active_id = active }

  checked_active-IsActive : (m : Memory P) → IsActive m.active_id m.by_id → checked_active m ≡ m
  unfolding checked_active
  checked_active-IsActive m h = known m.active_id h
    where
      known :
          (a : Text)
          → IsActive a m.by_id
          → (if is_empty a || is_some (find_entry a m.by_id)
              then m
              else record m { active_id = [] })
            ≡ m
      known [] h = refl
      known (c ∷ cs) h = rw h refl

  -- A memory in order that is written to the store and read back is the same.
  pub load_contents-encode :
      (m : Memory P) → IsMemory m → load_contents (file (encode_store m)) ≡ inr m
  unfolding load_contents encode_store decode_store
  load_contents-encode m h =
      let start : Memory P = (record no_memory { active_id = m.active_id }) in
      let listed = encode_profiles-ids m.by_id m.by_id (find_entry-All m.by_id h.distinct) in
      let loaded : decode_profiles (encode_profiles m.order m.by_id) start ≡ some m =
        (ap (λ os. decode_profiles (encode_profiles os m.by_id) start) h.ordered
          ∙ ap (λ ps. decode_profiles ps start) listed
          ∙ decode_profiles-encode [] m.by_id [] m.active_id h.entries h.distinct
          ∙ ap (λ os. some (record m { order = os })) (sym h.ordered)) in
      rw (load_contents, decode_store, loaded) (ap inr (checked_active-IsActive m h.active))
