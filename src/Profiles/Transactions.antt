-- ===== src/Profiles/Transactions.antt =====
-- src/internal/profiles: `commit` (persist.go) and the exported operations (service.go, resolved.go,
-- resolver.go). An answer from outside is an error or what was asked for.
use blacktemple_kn.Prelude.{
  ℕ, not, ◌||◌, if◌then◌else◌, Option, none, some, List, [], ◌∷◌, Text, text_eq, is_empty, codes,
  ◌⊎◌, inl, inr,
}
use blacktemple_kn.Strings.{trim_space}
use blacktemple_kn.Keys
use blacktemple_kn.Supervisor.Recovery.{equal_fold}
use blacktemple_kn.Keys.State.{ConnectionCandidate, LastKnownGood, find_key}
use blacktemple_kn.Servers.Select.{Mode}
use blacktemple_kn.Profiles.State.{Profile, ParsedShare, Memory, Service, find_entry, clone}
use blacktemple_kn.Profiles.Store.{Storage, encode_store}
use blacktemple_kn.Profiles.Service.{
  Error, not_found, unsupported_store_version, persist_failed, of_keys, empty_import,
  no_refresh_url, empty_subscription, unsupported_protocol, resolver_invalid, outside, Change,
  on_entry, set_active, choose_candidate, change_server, select_server_mode, rotate_entry,
  commit_last_known_good, roll_back_entry,
}
use blacktemple_kn.Profiles.Entities.{Xray, resolver_candidates}
use blacktemple_kn.Profiles.Operations.{
  Loaded, imported, import_entry, black_key_shell, refresh_entry, resolve_entry, import_resolved,
  change_key_of, published_of,
}

-- An operation of the service, with one error among its results.
abbrev pub Result : Type 0 → Type 0 → Type 0 → Type 0
Result P W A = W × Service P × (Error ⊎ A)

module _ {P W : Type 0} (storage : Storage P W) where
  -- The memory is replaced only once it is written.
  unfoldable pub written : {A : Type 0} → Memory P → A → Service P → W × Option Text → Result P W A
  written m a s (w, some e) = (w, s, inl (persist_failed e))
  written m a s (w, none) = (w, record s { memory = m }, inr a)

  unfoldable pub commit_change : {A : Type 0} → Change (Memory P) A → Service P → W → Result P W A
  unfolding written encode_store
  commit_change (inl e) s w = (w, s, inl e)
  commit_change (inr (m, a)) s w =
      if s.has_store
      then written m a s (storage.write (encode_store m) w)
      else (w, record s { memory = m }, inr a)

  unfoldable pub commit :
      {A : Type 0} → (Memory P → Change (Memory P) A) → Service P → W → Result P W A
  unfolding commit_change clone
  commit f s w =
      if s.persist_blocked
      then (w, s, inl unsupported_store_version)
      else commit_change (f (clone s.memory)) s w

  unfoldable pub import_profile :
      Xray P
      → Option (Text ⊎ List (ParsedShare P))
      → Text
      → Text
      → Text
      → Text
      → Text ⊎ Loaded P
      → ℕ
      → ℕ
      → Service P
      → W
      → Result P W Profile
  unfolding trim_space published_of import_entry imported commit
  import_profile x resolver id sub_id name raw loaded fetched created s w =
      if is_empty (trim_space raw) then (w, s, inl empty_import) else (elim loaded [
        | inl e ↦ (w, s, inl (outside e))
        | inr l ↦ elim (published_of x resolver l.entries) [
          | inl e ↦ (w, s, inl e)
          | inr published ↦
              commit (import_entry (imported id sub_id name l published fetched created)) s w
        ]
      ])

  unfoldable pub create_black_key_shell :
      Text → Text → Text → ℕ → ℕ → Service P → W → Result P W Profile
  unfolding import_entry black_key_shell commit
  create_black_key_shell id sub_id name fetched created s w =
      commit (import_entry (black_key_shell id sub_id name fetched created)) s w

  unfoldable pub refresh : Xray P → Text → Text ⊎ Loaded P → ℕ → Service P → W → Result P W Unit
  unfolding find_entry on_entry refresh_entry commit
  refresh x id loaded fetched s w = elim (find_entry id s.memory.by_id) [
    | none ↦ (w, s, inl not_found)
    | some e ↦
        if not (text_eq e.sub.kind (codes "url")) || is_empty e.sub.source
        then (w, s, inl no_refresh_url)
        else (elim loaded [
          | inl error ↦ (w, s, inl (outside error))
          | inr l ↦ commit (on_entry id (refresh_entry x id l fetched)) s w
        ])
  ]

  unfoldable pub resolve_with : Text → List (ParsedShare P) → Service P → W → Result P W Unit
  unfolding on_entry resolve_entry commit
  resolve_with id [] s w = (w, s, inl resolver_invalid)
  resolve_with id (e ∷ es) s w = commit (on_entry id (resolve_entry (e ∷ es))) s w

  -- `Resolve`, where there is a resolver.
  unfoldable pub resolve :
      Xray P → Text → Text ⊎ List (ParsedShare P) → Service P → W → Result P W Unit
  unfolding find_entry resolver_candidates resolve_with
  resolve x id answer s w = elim (find_entry id s.memory.by_id) [
    | none ↦ (w, s, inl not_found)
    | some e ↦ elim answer [
      | inl error ↦ (w, s, inl (outside error))
      | inr entries ↦ resolve_with id (resolver_candidates x entries) s w
    ]
  ]

  unfoldable pub change_with :
      Text → Text → List (ParsedShare P) → Service P → W → Result P W ConnectionCandidate
  unfolding equal_fold on_entry change_key_of commit
  change_with id key_id [] s w = (w, s, inl empty_subscription)
  change_with id key_id (share ∷ shares) s w =
      if not (equal_fold (λ c. c) share.protocol (codes "vless"))
      then (w, s, inl unsupported_protocol)
      else commit (on_entry id (change_key_of id key_id share)) s w

  unfoldable pub change_key :
      Text → Text → Text ⊎ List (ParsedShare P) → Service P → W → Result P W ConnectionCandidate
  unfolding find_entry find_key change_with
  change_key id key_id answer s w = elim (find_entry id s.memory.by_id) [
    | none ↦ (w, s, inl not_found)
    | some e ↦ elim (find_key e.keys.keys key_id) [
      | none ↦ (w, s, inl (of_keys Keys.State.not_found))
      | some k ↦ elim answer [
        | inl error ↦ (w, s, inl (outside error))
        | inr shares ↦ change_with id key_id shares s w
      ]
    ]
  ]

-- The operations with their arguments.
pub data Operation (P : Type 0) : Type 0 where
  op_import :
      Xray P
      → Option (Text ⊎ List (ParsedShare P))
      → Text
      → Text
      → Text
      → Text
      → Text ⊎ Loaded P
      → ℕ
      → ℕ
      → Operation P
  op_shell : Text → Text → Text → ℕ → ℕ → Operation P
  op_set_active op_rotate op_rollback : Text → Operation P
  op_select : Text → Text → Text → Operation P
  op_change_server : Text → Text → Operation P
  op_server_mode : Text → Mode → Text → Operation P
  op_commit_good : Text → ℕ → Operation P
  op_refresh : Xray P → Text → Text ⊎ Loaded P → ℕ → Operation P
  op_resolve : Xray P → Text → Text ⊎ List (ParsedShare P) → Operation P
  op_import_resolved : Text → List (ParsedShare P) → Operation P
  op_change_key : Text → Text → Text ⊎ List (ParsedShare P) → Operation P

module _ {P W : Type 0} (storage : Storage P W) where
  -- The machine and the service after an operation, and whether it had an error.
  unfoldable pub outcome : {A : Type 0} → Result P W A → W × Service P × Option Error
  outcome (w, s, inl e) = (w, s, some e)
  outcome (w, s, inr a) = (w, s, none)

  unfoldable pub operate : Operation P → Service P → W → W × Service P × Option Error
  unfolding outcome import_profile create_black_key_shell set_active rotate_entry roll_back_entry
      choose_candidate change_server select_server_mode commit_last_known_good refresh resolve
      import_resolved change_key on_entry commit
  operate (op_import x resolver id sub_id name raw loaded fetched created) s w =
      outcome (import_profile storage x resolver id sub_id name raw loaded fetched created s w)
  operate (op_shell id sub_id name fetched created) s w =
      outcome (create_black_key_shell storage id sub_id name fetched created s w)
  operate (op_set_active id) s w = outcome (commit storage (set_active id) s w)
  operate (op_rotate id) s w = outcome (commit storage (on_entry id rotate_entry) s w)
  operate (op_rollback id) s w = outcome (commit storage (on_entry id roll_back_entry) s w)
  operate (op_select id key_id server_id) s w =
      outcome (commit storage (on_entry id (choose_candidate key_id server_id)) s w)
  operate (op_change_server id server_id) s w =
      outcome (commit storage (on_entry id (change_server server_id)) s w)
  operate (op_server_mode id mode manual_id) s w =
      outcome (commit storage (on_entry id (select_server_mode mode manual_id)) s w)
  operate (op_commit_good id now) s w =
      outcome (commit storage (on_entry id (commit_last_known_good now)) s w)
  operate (op_refresh x id loaded fetched) s w = outcome (refresh storage x id loaded fetched s w)
  operate (op_resolve x id answer) s w = outcome (resolve storage x id answer s w)
  operate (op_import_resolved id published) s w =
      outcome (commit storage (on_entry id (import_resolved id published)) s w)
  operate (op_change_key id key_id answer) s w = outcome (change_key storage id key_id answer s w)

  unfoldable pub operate_all : List (Operation P) → Service P → W → W × Service P
  unfolding operate
  operate_all [] s w = (w, s)
  operate_all (o ∷ os) s w = let (w', s', e) = operate o s w in operate_all os s' w'
