-- ===== src/Profiles/MemoryKept.antt =====
-- src/internal/profiles: the changes of the memory keep it in order.
use blacktemple_kn.Prelude.{
  Bool, true, false, if◌then◌else◌, Option, none, some, is_some, List, [], ◌∷◌, ◌++◌, All, Text,
  text_eq, text_eq_refl, text_eq_cases, is_empty, inl, inr, ◌≡◌, refl, sym, ap, ◌∙◌, subst, arith,
  Bool-cases, Option-cases, if-both,
}
use blacktemple_kn.Keys.Rollback.{import_state-export}
use blacktemple_kn.Profiles.State.{
  Entry, Memory, find_entry, put_entry, clone, clone_entries, clone_entry,
}
use blacktemple_kn.Profiles.Service.{Change, on_entry, set_active}
use blacktemple_kn.Profiles.Operations.{import_entry, add_entry}
use blacktemple_kn.Profiles.Invariant.{IsEntry, AllEntries, ids, DistinctIds, IsActive, IsMemory}
use blacktemple_kn.Profiles.EntryKept.{Gives}

module _ {P : Type 0} where
  clone_entries-same : (es : List (Text × Entry P)) → clone_entries es ≡ es
  unfolding clone_entries clone_entry
  clone_entries-same [] = refl
  clone_entries-same ((i, e) ∷ es) = rw (import_state-export e.keys, clone_entries-same es) refl

  pub clone-same : (m : Memory P) → clone m ≡ m
  unfolding clone
  clone-same m = ap (λ es. record m { by_id = es }) (clone_entries-same m.by_id)

  -- What is found under an id is in order.
  abbrev IsFound : Text → Option (Entry P) → Type 0
  IsFound id none = Unit
  IsFound id (some e) = IsEntry id e

  find-IsFound :
      (id : Text) (es : List (Text × Entry P)) → AllEntries es → IsFound id (find_entry id es)
  unfolding find_entry
  find-IsFound id [] h = tt
  find-IsFound id ((i, x) ∷ es) h = elim (text_eq_cases i id) [
    | inl (y, same) ↦ rw (find_entry, y) (subst (λ j. IsEntry j x) same h.0)
    | inr n ↦ rw (find_entry, n) (find-IsFound id es h.1)
  ]

  put-All :
      (Q : Text × Entry P → Type 0) (id : Text) (new : Entry P) (es : List (Text × Entry P))
      → Q (id, new)
      → All Q es
      → All Q (put_entry id new es)
  unfolding put_entry
  put-All Q id new [] q h = (q, tt)
  put-All Q id new ((i, x) ∷ es) q h = elim (text_eq_cases i id) [
    | inl (y, same) ↦ rw (put_entry, y) (subst (λ j. Q (j, new)) (sym same) q, h.1)
    | inr n ↦ rw (put_entry, n) (h.0, put-All Q id new es q h.1)
  ]

  put-DistinctIds :
      (id : Text) (new : Entry P) (es : List (Text × Entry P))
      → DistinctIds es
      → DistinctIds (put_entry id new es)
  unfolding put_entry
  put-DistinctIds id new [] d = (tt, tt)
  put-DistinctIds id new ((i, x) ∷ es) d = elim (text_eq_cases i id) [
    | inl (y, same) ↦ rw (put_entry, y) d
    | inr n ↦
        rw (put_entry, n)
          (put-All (λ p. text_eq i p.0 ≡ false) id new es n d.0, put-DistinctIds id new es d.1)
  ]

  -- What is put under an id that is there leaves the ids alone, and a new id comes last.
  put-ids :
      (id : Text) (new : Entry P) (es : List (Text × Entry P))
      → ids (put_entry id new es)
        ≡ (if is_some (find_entry id es) then ids es else ids es ++ id ∷ [])
  unfolding find_entry put_entry
  put-ids id new [] = refl
  put-ids id new ((i, x) ∷ es) = elim (text_eq_cases i id) [
    | inl (y, same) ↦ rw (put_entry, find_entry, y) refl
    | inr n ↦
        rw (put_entry, find_entry, n)
          (ap (λ r. i ∷ r) (put-ids id new es) ∙ pushed (is_some (find_entry id es)))
  ]
    where
      pushed :
          (b : Bool)
          → i ∷ (if b then ids es else ids es ++ id ∷ [])
            ≡ (if b then i ∷ ids es else i ∷ ids es ++ id ∷ [])
      pushed true = refl
      pushed false = refl

  put-is_some :
      (j id : Text) (new : Entry P) (es : List (Text × Entry P))
      → is_some (find_entry j es) ≡ true
      → is_some (find_entry j (put_entry id new es)) ≡ true
  unfolding find_entry put_entry
  put-is_some j id new [] f = ground (arith, f)
  put-is_some j id new ((i, x) ∷ es) f = elim (text_eq_cases i id) [
    | inl (y, same) ↦ rw (put_entry, y) (ground (arith, f))
    | inr n ↦
        rw (put_entry, n)
          (elim (Bool-cases (text_eq i j)) [
            | inl z ↦ rw (find_entry, z) refl
            | inr z ↦ rw (find_entry, z) (put-is_some j id new es (ground (arith, f, z)))
          ])
  ]

  put_self-is_some :
      (id : Text) (new : Entry P) (es : List (Text × Entry P))
      → is_some (find_entry id (put_entry id new es)) ≡ true
  unfolding find_entry put_entry
  put_self-is_some id new [] = rw (text_eq_refl id) refl
  put_self-is_some id new ((i, x) ∷ es) = elim (text_eq_cases i id) [
    | inl (y, same) ↦ rw (put_entry, y) (rw (find_entry, y) refl)
    | inr n ↦ rw (put_entry, n) (rw (find_entry, n) (put_self-is_some id new es))
  ]

  put-IsActive :
      (a id : Text) (new : Entry P) (es : List (Text × Entry P))
      → IsActive a es
      → IsActive a (put_entry id new es)
  put-IsActive [] id new es h = tt
  put-IsActive (c ∷ cs) id new es h = put-is_some (c ∷ cs) id new es h

  here-IsActive :
      (id : Text) (es : List (Text × Entry P)) → is_some (find_entry id es) ≡ true → IsActive id es
  here-IsActive [] es h = tt
  here-IsActive (c ∷ cs) es h = h

  -- An operation on one entry that keeps entries in order keeps the memory in order.
  pub on_entry-Gives :
      {A : Type 0} (id : Text) (f : Entry P → Change (Entry P) A) (m : Memory P)
      → IsMemory m
      → ((e : Entry P) → IsEntry id e → Gives (IsEntry id) (f e))
      → Gives IsMemory (on_entry id f m)
  unfolding on_entry
  on_entry-Gives {A} id f m h keeps = elim (Option-cases (find_entry id m.by_id)) [
    | inl n ↦ rw (on_entry, n) tt
    | inr (e, found) ↦
        rw (on_entry, found)
          (changed (f e) (keeps e (subst (IsFound id) found (find-IsFound id m.by_id h.entries)))
            (ap is_some found))
  ]
    where
      changed :
          (c : Change (Entry P) A)
          → Gives (IsEntry id) c
          → is_some (find_entry id m.by_id) ≡ true
          → Gives IsMemory (elim c as (λ _. Change (Memory P) A) [
            | inl error ↦ inl error
            | inr (e', a) ↦ inr (record m { by_id = put_entry id e' m.by_id }, a)
          ])
      changed (inl error) g there = tt
      changed (inr (e', a)) g there = record {
        entries = put-All (λ p. IsEntry p.0 p.1) id e' m.by_id g h.entries;
        distinct = put-DistinctIds id e' m.by_id h.distinct;
        ordered =
            h.ordered
            ∙ sym (
                put-ids id e' m.by_id
                ∙ ap (λ b. if b then ids m.by_id else ids m.by_id ++ id ∷ []) there);
        active = put-IsActive m.active_id id e' m.by_id h.active;
      }

  pub set_active-Gives : (id : Text) (m : Memory P) → IsMemory m → Gives IsMemory (set_active id m)
  unfolding set_active
  set_active-Gives id m h = elim (Option-cases (find_entry id m.by_id)) [
    | inl n ↦ rw (set_active, n) tt
    | inr (e, found) ↦
        rw (set_active, found)
          (record {
            entries = h.entries;
            distinct = h.distinct;
            ordered = h.ordered;
            active = here-IsActive id m.by_id (ap is_some found);
          })
  ]

  -- An entry under a new id keeps the memory in order.
  pub import_entry-Gives :
      (e : Entry P) (m : Memory P)
      → IsMemory m
      → IsEntry e.profile.id e
      → find_entry e.profile.id m.by_id ≡ none
      → Gives IsMemory (import_entry e m)
  unfolding import_entry add_entry
  import_entry-Gives e m h g new = record {
    entries = put-All (λ p. IsEntry p.0 p.1) e.profile.id e m.by_id g h.entries;
    distinct = put-DistinctIds e.profile.id e m.by_id h.distinct;
    ordered =
        ap (λ os. os ++ e.profile.id ∷ []) h.ordered
        ∙ sym (
            put-ids e.profile.id e m.by_id
            ∙ ap (λ o. if is_some o then ids m.by_id else ids m.by_id ++ e.profile.id ∷ []) new);
    active =
        if-both (λ a. IsActive a (put_entry e.profile.id e m.by_id)) (is_empty m.active_id)
          (here-IsActive e.profile.id _ (put_self-is_some e.profile.id e m.by_id))
          (put-IsActive m.active_id e.profile.id e m.by_id h.active);
  }
