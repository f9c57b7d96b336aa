-- ===== src/Profiles/EntryMade.antt =====
-- src/internal/profiles: entries whose keys and servers are made of share entries are in order.
use blacktemple_kn.Prelude.{
  ℕ, false, ◌&&◌, List, [], ◌∷◌, Text, text_eq, is_empty, codes, inl, inr, ◌≡◌, refl, sym, ◌∙◌,
  subst, Option-cases, if-both,
}
use blacktemple_kn.Keys.State.{Key, new_state, set_keys, find_key, replace_key}
use blacktemple_kn.Servers.Select.{Server}
use blacktemple_kn.Profiles.State.{ParsedShare, Entry, resolution_of}
use blacktemple_kn.Profiles.Entities.{
  Xray, key_of, entities, merge_servers, replace_entities, replace_resolved, filter_publishable,
  source_kind_of, had_vless, no_entries,
}
use blacktemple_kn.Profiles.Operations.{
  Loaded, imported, black_key_shell, refreshed, refresh_entry, resolve_entry, import_resolved,
  replace_with, change_key_of,
}
use blacktemple_kn.Profiles.Invariant.{IsEntry}
use blacktemple_kn.Profiles.EntryKept.{
  Gives, IsState, IsEntry-IsState, with_keys-IsEntry, replace_key-IsState, select_first-IsState,
  reselect-IsState,
}

pub resolution_of-full : {A : Type 0} (ks : List A) → is_empty (resolution_of ks) ≡ false
unfolding resolution_of
resolution_of-full [] = refl
resolution_of-full (k ∷ ks) = refl

module _ {P : Type 0} where
  -- An entry with new keys, servers, source kind and resolution, and any subscription.
  remade :
      (id : Text) (e e' : Entry P)
      → IsEntry id e
      → IsState id e'.keys
      → e'.profile.id ≡ e.profile.id
      → is_empty e'.profile.source_kind ≡ false
      → is_empty e'.profile.resolution_state ≡ false
      → IsEntry id e'
  remade id e e' h g same kind resolved = record {
    named = h.named;
    profile_id = same ∙ h.profile_id;
    keys_id = g.0;
    source_kind = kind;
    resolution = resolved;
    active = g.1.0;
    lkg = g.1.1;
  }

  replace_entities-IsEntry :
      (id : Text) (published : List (ParsedShare P)) (e : Entry P)
      → IsEntry id e
      → IsEntry id (replace_entities id published e)
  unfolding replace_entities
  replace_entities-IsEntry id published e h =
      let ks = (entities id e.sub.id published).0 in
      remade id e (replace_entities id published e) h
        (reselect-IsState id ks (set_keys ks e.keys) (IsEntry-IsState id e h)) refl h.source_kind
        (resolution_of-full ks)

  refreshed-IsEntry :
      (id : Text) (published : List (ParsedShare P)) (e : Entry P)
      → IsEntry id e
      → IsEntry id (refreshed id published e)
  unfolding refreshed
  refreshed-IsEntry id [] e h =
      remade id e (refreshed id [] e) h (IsEntry-IsState id e h) refl h.source_kind
        (resolution_of-full e.keys.keys)
  refreshed-IsEntry id (s ∷ ss) e h = replace_entities-IsEntry id (s ∷ ss) e h

  pub refresh_entry-Gives :
      (x : Xray P) (id : Text) (l : Loaded P) (fetched : ℕ) (e : Entry P)
      → IsEntry id e
      → Gives (IsEntry id) (refresh_entry x id l fetched e)
  unfolding refresh_entry
  refresh_entry-Gives x id l fetched e h =
      refreshed-IsEntry id (filter_publishable x l.entries) _
        (remade id e _ h (IsEntry-IsState id e h) refl h.source_kind h.resolution)

  pub resolve_entry-Gives :
      (id : Text) (published : List (ParsedShare P)) (e : Entry P)
      → IsEntry id e
      → Gives (IsEntry id) (resolve_entry published e)
  unfolding resolve_entry replace_resolved
  resolve_entry-Gives id published e h =
      subst (λ i. IsEntry id (replace_entities i published e)) (sym h.profile_id)
        (replace_entities-IsEntry id published e h)

  new_state-IsState : (id : Text) (ks : List (Key P)) → IsState id (new_state id ks)
  unfolding new_state
  new_state-IsState id ks = (refl, (refl, refl))

  pub import_resolved-Gives :
      (id : Text) (published : List (ParsedShare P)) (e : Entry P)
      → IsEntry id e
      → Gives (IsEntry id) (import_resolved id published e)
  unfolding import_resolved
  import_resolved-Gives id published e h =
      let ks = (entities id e.sub.id published).0 in
      remade id e _ h (select_first-IsState id ks (new_state id ks) (new_state-IsState id ks)) refl
        (if-both (λ t. is_empty t ≡ false) (is_empty e.profile.source_kind) refl h.source_kind)
        (resolution_of-full ks)

  pub change_key_of-Gives :
      (id key : Text) (share : ParsedShare P) (e : Entry P)
      → IsEntry id e
      → Gives (IsEntry id) (change_key_of id key share e)
  unfolding change_key_of entities replace_with
  change_key_of-Gives id key share e h = elim (Option-cases (find_key e.keys.keys key)) [
    | inl n ↦ rw (change_key_of, n) tt
    | inr (k, f) ↦
        rw (change_key_of, f)
          (with_keys-IsEntry id (merged (entities id e.sub.id (share ∷ [])).1)
            (replace_key key (key_of id e.sub.id share) e.keys)
            (remade id e (merged (entities id e.sub.id (share ∷ [])).1) h (IsEntry-IsState id e h)
              refl h.source_kind h.resolution)
            (replace_key-IsState id key (key_of id e.sub.id share) e.keys (IsEntry-IsState id e h)))
  ]
    where
      merged : List Server → Entry P
      merged srvs = record e { servers = merge_servers e.servers srvs }

  source_kind_of-full :
      (kind : Text) (entries published : List (ParsedShare P))
      → is_empty (source_kind_of kind entries published) ≡ false
  unfolding source_kind_of
  source_kind_of-full kind entries published =
      let Q : Text → Type 0 = (λ t. is_empty t ≡ false) in
      if-both Q (text_eq kind (codes "url")) refl (
        if-both Q (text_eq kind (codes "json")) refl
          (if-both Q (no_entries published && had_vless entries) refl refl))

  pub imported-IsEntry :
      (id sub name : Text) (l : Loaded P) (published : List (ParsedShare P)) (fetched created : ℕ)
      → is_empty id ≡ false
      → IsEntry id (imported id sub name l published fetched created)
  unfolding imported
  imported-IsEntry id sub name l published fetched created full =
      let ks = (entities id sub published).0 in
      let g = select_first-IsState id ks (new_state id ks) (new_state-IsState id ks) in
      record {
        named = full;
        profile_id = refl;
        keys_id = g.0;
        source_kind = source_kind_of-full l.kind l.entries published;
        resolution = resolution_of-full ks;
        active = g.1.0;
        lkg = g.1.1;
      }

  pub black_key_shell-IsEntry :
      (id sub name : Text) (fetched created : ℕ)
      → is_empty id ≡ false
      → IsEntry {P = P} id (black_key_shell id sub name fetched created)
  unfolding black_key_shell new_state
  black_key_shell-IsEntry id sub name fetched created full = record {
    named = full;
    profile_id = refl;
    keys_id = refl;
    source_kind = refl;
    resolution = refl;
    active = refl;
    lkg = refl;
  }
