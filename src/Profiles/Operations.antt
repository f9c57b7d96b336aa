-- ===== src/Profiles/Operations.antt =====
-- src/internal/profiles/service.go, resolved.go, resolver.go: the operations of the service, each as
-- one call of `commit` with what comes before it. A random id, the clock, and what the subscription parser, the network, the
-- resolver and the key changer answered are arguments.
use blacktemple_kn.Prelude.{
  ℕ, if◌then◌else◌, Option, none, some, List, [], ◌∷◌, ◌++◌, length, take, Text, is_empty, codes,
  ◌⊎◌, inl, inr,
}
use blacktemple_kn.Strings.{trim_space}
use blacktemple_kn.Keys
use blacktemple_kn.Keys.State.{
  Key, ConnectionCandidate, LastKnownGood, new_state, find_key, replace_key,
}
use blacktemple_kn.Profiles.State.{Profile, ParsedShare, Entry, Memory, resolution_of, put_entry}
use blacktemple_kn.Profiles.Service.{
  Error, empty_subscription, resolver_invalid, outside, of_keys, Change, with_keys,
}
use blacktemple_kn.Profiles.Entities.{
  Xray, filter_publishable, resolver_candidates, source_kind_of, entities, merge_servers,
  select_first, replace_entities, replace_resolved,
}

-- What `load` and the parser give: the kind and the source of the subscription, the content type of
-- the response, the encoding and the entries.
pub record Loaded (P : Type 0) : Type 0 where
  pub kind : Text
  pub source : Text
  pub content_type : Text
  pub encoding : Text
  pub entries : List (ParsedShare P)

unfoldable pub name_or_default : Text → Text → Text
unfolding trim_space
name_or_default id name =
    let trimmed = trim_space name in
    if is_empty trimmed then codes "profile-" ++ take 8 id else trimmed

module _ {P : Type 0} where
  -- A profile is stored under its id, last in the order; the first one becomes active.
  unfoldable pub add_entry : Entry P → Memory P → Memory P
  unfolding put_entry
  add_entry e m = record m {
    by_id = put_entry e.profile.id e m.by_id;
    order = m.order ++ e.profile.id ∷ [];
    active_id = if is_empty m.active_id then e.profile.id else m.active_id;
  }

  -- The profile of an import.
  unfoldable pub imported : Text → Text → Text → Loaded P → List (ParsedShare P) → ℕ → ℕ → Entry P
  unfolding name_or_default entities new_state select_first source_kind_of resolution_of
  imported id sub_id name l published fetched created =
      let (ks, srvs) = entities id sub_id published in
      record {
        profile = record {
          id = id;
          name = name_or_default id name;
          subscription_id = sub_id;
          created_at = created;
          source_kind = source_kind_of l.kind l.entries published;
          resolution_state = resolution_of ks;
        };
        sub = record {
          id = sub_id;
          profile_id = id;
          kind = l.kind;
          content_type = l.content_type;
          encoding = l.encoding;
          entry_count = length l.entries;
          fetched_at = fetched;
          source = l.source;
        };
        keys = select_first ks (new_state id ks);
        servers = srvs;
      }

  unfoldable pub import_entry : Entry P → Memory P → Change (Memory P) Profile
  unfolding add_entry
  import_entry e m = inr (add_entry e m, e.profile)

  -- `CreateBlackKeyShell`
  unfoldable pub black_key_shell : Text → Text → Text → ℕ → ℕ → Entry P
  unfolding name_or_default new_state
  black_key_shell id sub_id name fetched created = record {
    profile = record {
      id = id;
      name = name_or_default id name;
      subscription_id = sub_id;
      created_at = created;
      source_kind = codes "blackkey";
      resolution_state = codes "unresolved";
    };
    sub = record {
      id = sub_id;
      profile_id = id;
      kind = codes "url";
      content_type = [];
      encoding = [];
      entry_count = 0;
      fetched_at = fetched;
      source = [];
    };
    keys = new_state id [];
    servers = [];
  }

  -- Nothing is replaced where no entry is published.
  unfoldable pub refreshed : Text → List (ParsedShare P) → Entry P → Entry P
  unfolding resolution_of replace_entities
  refreshed id [] e = record e {
    profile = record (e.profile) { resolution_state = resolution_of e.keys.keys };
  }
  refreshed id (s ∷ ss) e = replace_entities id (s ∷ ss) e

  unfoldable pub refresh_entry : Xray P → Text → Loaded P → ℕ → Entry P → Change (Entry P) Unit
  unfolding filter_publishable refreshed
  refresh_entry x id l fetched e = inr (
    refreshed id (filter_publishable x l.entries) (record e {
      sub = record (e.sub) {
        content_type = l.content_type;
        encoding = l.encoding;
        entry_count = length l.entries;
        fetched_at = fetched;
      };
    }),
    tt,
  )

  -- The change of `Resolve`.
  unfoldable pub resolve_entry : List (ParsedShare P) → Entry P → Change (Entry P) Unit
  unfolding replace_resolved
  resolve_entry published e = inr (replace_resolved published e, tt)

  -- The change of `ImportResolved`.
  unfoldable pub import_resolved : Text → List (ParsedShare P) → Entry P → Change (Entry P) Unit
  unfolding entities new_state select_first resolution_of
  import_resolved id published e =
      let (ks, srvs) = entities id e.sub.id published in
      inr (
        record e {
          keys = select_first ks (new_state id ks);
          servers = srvs;
          profile = record (e.profile) {
            source_kind =
                if is_empty e.profile.source_kind then codes "blackkey" else e.profile.source_kind;
            resolution_state = resolution_of ks;
          };
        },
        tt,
      )

  -- The change of `ChangeKey`; `share` is the first entry of the answer.
  unfoldable pub replace_with : Text → List (Key P) → Entry P → Change (Entry P) ConnectionCandidate
  unfolding with_keys replace_key
  replace_with key_id [] e = inl empty_subscription
  replace_with key_id (k ∷ ks) e = with_keys e (replace_key key_id k e.keys)

  unfoldable pub change_key_of :
      Text → Text → ParsedShare P → Entry P → Change (Entry P) ConnectionCandidate
  unfolding find_key entities merge_servers replace_with
  change_key_of id key_id share e = elim (find_key e.keys.keys key_id) [
    | none ↦ inl (of_keys Keys.State.not_found)
    | some k ↦
        let (ks, srvs) = entities id e.sub.id (share ∷ []) in
        replace_with key_id ks (record e { servers = merge_servers e.servers srvs })
  ]

  -- The entries that an import publishes: those of the resolver, where there is one and it has some.
  unfoldable pub published_of :
      Xray P
      → Option (Text ⊎ List (ParsedShare P))
      → List (ParsedShare P)
      → Error ⊎ List (ParsedShare P)
  unfolding resolver_candidates
  published_of x none own = inr own
  published_of x (some (inl e)) [] = inl (outside e)
  published_of x (some (inl e)) (s ∷ ss) = inr (s ∷ ss)
  published_of x (some (inr got)) own = first_of (resolver_candidates x got) own
    where
      first_of : List (ParsedShare P) → List (ParsedShare P) → Error ⊎ List (ParsedShare P)
      first_of [] [] = inl resolver_invalid
      first_of [] (s ∷ ss) = inr (s ∷ ss)
      first_of (n ∷ ns) own = inr (n ∷ ns)
