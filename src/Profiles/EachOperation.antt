-- ===== src/Profiles/EachOperation.antt =====
-- src/internal/profiles: an operation ends early with nothing changed, or is one commit of a change
-- that keeps the memory in order.
use blacktemple_kn.Prelude.{
  ℕ, false, not, ◌||◌, Option, none, some, List, [], ◌∷◌, Text, text_eq, is_empty, codes, ◌⊎◌, inl,
  inr, ◌≡◌, ap, ◌∙◌, Bool-cases, Option-cases, Sum-cases,
}
use blacktemple_kn.Strings.{trim_space}
use blacktemple_kn.Supervisor.Recovery.{equal_fold}
use blacktemple_kn.Keys.State.{find_key}
use blacktemple_kn.Profiles.State.{Profile, ParsedShare, Entry, Memory, Service, find_entry}
use blacktemple_kn.Profiles.Store.{Storage}
use blacktemple_kn.Profiles.Service.{
  Error, Change, on_entry, set_active, choose_candidate, change_server, select_server_mode,
  rotate_entry, commit_last_known_good, roll_back_entry,
}
use blacktemple_kn.Profiles.Entities.{Xray, resolver_candidates}
use blacktemple_kn.Profiles.Operations.{
  Loaded, imported, import_entry, black_key_shell, refresh_entry, resolve_entry, import_resolved,
  change_key_of, published_of,
}
use blacktemple_kn.Profiles.Transactions.{
  commit, import_profile, create_black_key_shell, refresh, resolve_with, resolve, change_with,
  change_key, Operation, op_import, op_shell, op_set_active, op_rotate, op_rollback, op_select,
  op_change_server, op_server_mode, op_commit_good, op_refresh, op_resolve, op_import_resolved,
  op_change_key, outcome, operate,
}
use blacktemple_kn.Profiles.Invariant.{IsEntry, IsMemory}
use blacktemple_kn.Profiles.EntryKept.{
  Gives, choose_candidate-Keeps, change_server-Keeps, select_server_mode-Keeps, rotate_entry-Keeps,
  commit_last_known_good-Keeps, roll_back_entry-Keeps,
}
use blacktemple_kn.Profiles.EntryMade.{
  refresh_entry-Gives, resolve_entry-Gives, import_resolved-Gives, change_key_of-Gives,
  imported-IsEntry, black_key_shell-IsEntry,
}
use blacktemple_kn.Profiles.MemoryKept.{on_entry-Gives, set_active-Gives, import_entry-Gives}

module _ {P W : Type 0} (storage : Storage P W) where
  abbrev IsNew : Text → Service P → Type 0
  IsNew id s = (is_empty id ≡ false) × (find_entry id s.memory.by_id ≡ none)

  -- A random id is not empty and is not in use.
  abbrev pub IsFresh : Operation P → Service P → Type 0
  IsFresh (op_import x resolver id sub_id name raw loaded fetched created) s = IsNew id s
  IsFresh (op_shell id sub_id name fetched created) s = IsNew id s
  IsFresh _ s = Unit

  abbrev pub AllFresh : List (Operation P) → Service P → W → Type 0
  AllFresh [] s w = Unit
  AllFresh (o ∷ os) s w =
      IsFresh o s × AllFresh os (operate storage o s w).1 (operate storage o s w).0

  -- What holds where nothing changed and after each commit that keeps the memory in order holds after
  -- each operation.
  module _ (s : Service P) (w : W) (Q : W × Service P × Option Error → Type 0)
      (same : (e : Error) → Q (w, s, some e))
      (committed : (A : Type 0) (f : Memory P → Change (Memory P) A)
        → ((m : Memory P) → m ≡ s.memory → IsMemory m → Gives IsMemory (f m))
        → Q (outcome storage (commit storage f s w))) where
    on_one :
        {A : Type 0} (id : Text) (f : Entry P → Change (Entry P) A)
        → ((e : Entry P) → IsEntry id e → Gives (IsEntry id) (f e))
        → Q (outcome storage (commit storage (on_entry id f) s w))
    on_one {A} id f keeps = committed A (on_entry id f) (λ m e h. on_entry-Gives id f m h keeps)

    on_new :
        (e : Entry P)
        → IsEntry e.profile.id e
        → find_entry e.profile.id s.memory.by_id ≡ none
        → Q (outcome storage (commit storage (import_entry e) s w))
    on_new e g new = committed Profile (import_entry e) (λ m same h.
        import_entry-Gives e m h g (ap (λ n. find_entry e.profile.id n.by_id) same ∙ new))

    operate_import :
        (x : Xray P) (resolver : Option (Text ⊎ List (ParsedShare P))) (id sub_id name raw : Text)
        (loaded : Text ⊎ Loaded P) (fetched created : ℕ)
        → IsNew id s
        → Q (
            outcome storage
              (import_profile storage x resolver id sub_id name raw loaded fetched created s w))
    unfolding import_profile outcome
    operate_import x resolver id sub_id name raw loaded fetched created new =
        elim (Bool-cases (is_empty (trim_space raw))) [
          | inl y ↦ rw (import_profile, y) (same _)
          | inr n ↦ elim (Sum-cases loaded) [
            | inl (e, bad) ↦ rw (import_profile, n, bad) (same _)
            | inr (l, good) ↦ elim (Sum-cases (published_of x resolver l.entries)) [
              | inl (e, bad) ↦ rw (import_profile, n, good, bad) (same _)
              | inr (ps, some_ps) ↦
                  rw (import_profile, n, good, some_ps)
                    (on_new (imported id sub_id name l ps fetched created)
                      (imported-IsEntry id sub_id name l ps fetched created new.0) new.1)
            ]
          ]
        ]

    operate_refresh :
        (x : Xray P) (id : Text) (loaded : Text ⊎ Loaded P) (fetched : ℕ)
        → Q (outcome storage (refresh storage x id loaded fetched s w))
    unfolding refresh outcome
    operate_refresh x id loaded fetched = elim (Option-cases (find_entry id s.memory.by_id)) [
      | inl n ↦ rw (refresh, n) (same _)
      | inr (e, found) ↦
          elim (Bool-cases (not (text_eq e.sub.kind (codes "url")) || is_empty e.sub.source)) [
            | inl y ↦ rw (refresh, found, y) (same _)
            | inr n ↦ elim (Sum-cases loaded) [
              | inl (error, bad) ↦ rw (refresh, found, n, bad) (same _)
              | inr (l, good) ↦
                  rw (refresh, found, n, good)
                    (on_one id (refresh_entry x id l fetched) (refresh_entry-Gives x id l fetched))
            ]
          ]
    ]

    operate_resolve :
        (x : Xray P) (id : Text) (answer : Text ⊎ List (ParsedShare P))
        → Q (outcome storage (resolve storage x id answer s w))
    unfolding resolve outcome
    operate_resolve x id answer = elim (Option-cases (find_entry id s.memory.by_id)) [
      | inl n ↦ rw (resolve, n) (same _)
      | inr (e, found) ↦ elim (Sum-cases answer) [
        | inl (error, bad) ↦ rw (resolve, found, bad) (same _)
        | inr (entries, good) ↦ rw (resolve, found, good) (resolved (resolver_candidates x entries))
      ]
    ]
      where
        resolved :
            (es : List (ParsedShare P)) → Q (outcome storage (resolve_with storage id es s w))
        resolved [] = same _
        resolved (e ∷ es) = on_one id (resolve_entry (e ∷ es)) (resolve_entry-Gives id (e ∷ es))

    operate_change_key :
        (id key_id : Text) (answer : Text ⊎ List (ParsedShare P))
        → Q (outcome storage (change_key storage id key_id answer s w))
    unfolding change_key outcome
    operate_change_key id key_id answer = elim (Option-cases (find_entry id s.memory.by_id)) [
      | inl n ↦ rw (change_key, n) (same _)
      | inr (e, found) ↦ elim (Option-cases (find_key e.keys.keys key_id)) [
        | inl n ↦ rw (change_key, found, n) (same _)
        | inr (k, there) ↦ elim (Sum-cases answer) [
          | inl (error, bad) ↦ rw (change_key, found, there, bad) (same _)
          | inr (shares, good) ↦ rw (change_key, found, there, good) (changed shares)
        ]
      ]
    ]
      where
        changed :
            (shares : List (ParsedShare P))
            → Q (outcome storage (change_with storage id key_id shares s w))
        changed [] = same _
        changed (share ∷ shares) =
            elim (Bool-cases (equal_fold (λ c. c) share.protocol (codes "vless"))) [
              | inl y ↦
                  rw (change_with, y)
                    (on_one id (change_key_of id key_id share)
                      (change_key_of-Gives id key_id share))
              | inr n ↦ rw (change_with, n) (same _)
            ]

    pub operate_each : (o : Operation P) → IsFresh o s → Q (operate storage o s w)
    unfolding operate create_black_key_shell
    operate_each (op_import x resolver id sub_id name raw loaded fetched created) new =
        operate_import x resolver id sub_id name raw loaded fetched created new
    operate_each (op_shell id sub_id name fetched created) new =
        on_new (black_key_shell id sub_id name fetched created)
          (black_key_shell-IsEntry id sub_id name fetched created new.0) new.1
    operate_each (op_set_active id) new =
        committed Unit (set_active id) (λ m e h. set_active-Gives id m h)
    operate_each (op_rotate id) new = on_one id rotate_entry (rotate_entry-Keeps id)
    operate_each (op_rollback id) new = on_one id roll_back_entry (roll_back_entry-Keeps id)
    operate_each (op_select id key server) new =
        on_one id (choose_candidate key server) (choose_candidate-Keeps key server id)
    operate_each (op_change_server id server) new =
        on_one id (change_server server) (change_server-Keeps server id)
    operate_each (op_server_mode id mode manual) new =
        on_one id (select_server_mode mode manual) (select_server_mode-Keeps mode manual id)
    operate_each (op_commit_good id now) new =
        on_one id (commit_last_known_good now) (commit_last_known_good-Keeps now id)
    operate_each (op_refresh x id loaded fetched) new = operate_refresh x id loaded fetched
    operate_each (op_resolve x id answer) new = operate_resolve x id answer
    operate_each (op_import_resolved id published) new =
        on_one id (import_resolved id published) (import_resolved-Gives id published)
    operate_each (op_change_key id key answer) new = operate_change_key id key answer
