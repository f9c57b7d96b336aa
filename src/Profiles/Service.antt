-- ===== src/Profiles/Service.antt =====
-- src/internal/profiles/service.go: the operations that choose the key and the server of a profile.
use blacktemple_kn.Prelude.{
  ℕ, ltb, if◌then◌else◌, Option, none, some, List, [], ◌∷◌, length, Text, text_eq, is_empty, ◌⊎◌,
  inl, inr,
}
use blacktemple_kn.Keys
use blacktemple_kn.Keys.State.{
  Key, State, ConnectionCandidate, LastKnownGood, Result, ok, fails, new_state, set_keys, find_key,
  select_candidate, commit_good, rollback, replace_key, rotate_key,
}
use blacktemple_kn.Servers.Select.{
  Server, Mode, rotate, Choice, chosen, err_not_found, err_empty, select,
}
use blacktemple_kn.Profiles.State.{Entry, Memory, find_entry, put_entry}

pub data Error : Type 0 where
  not_found unsupported_store_version servers_not_found servers_empty panicked : Error
  empty_import no_refresh_url empty_subscription unsupported_protocol resolver_invalid : Error
  outside : Text → Error
  persist_failed : Text → Error
  of_keys : Keys.State.Error → Error

-- What an operation makes of the value that it changes, with the value that it returns.
abbrev pub Change : Type 0 → Type 0 → Type 0
Change M A = Error ⊎ (M × A)

-- `findServer`
unfoldable pub find_server : List Server → Text → Option Server
find_server [] id = none
find_server (s ∷ ss) id = if text_eq s.id id then some s else find_server ss id

module _ {P : Type 0} where
  -- The lookup with which the operations of one profile begin.
  unfoldable pub on_entry :
      {A : Type 0} → Text → (Entry P → Change (Entry P) A) → Memory P → Change (Memory P) A
  unfolding find_entry put_entry
  on_entry id f m = elim (find_entry id m.by_id) [
    | none ↦ inl not_found
    | some e ↦ elim (f e) [
      | inl error ↦ inl error
      | inr (e', a) ↦ inr (record m { by_id = put_entry id e' m.by_id }, a)
    ]
  ]

  unfoldable pub with_keys : {A : Type 0} → Entry P → State P × Result A → Change (Entry P) A
  with_keys e (s, ok a) = inr (record e { keys = s }, a)
  with_keys e (s, fails error) = inl (of_keys error)
  with_keys e (s, Result.panics) = inl panicked

  -- `SetActive`
  unfoldable pub set_active : Text → Memory P → Change (Memory P) Unit
  unfolding find_entry
  set_active id m = elim (find_entry id m.by_id) [
    | none ↦ inl not_found
    | some e ↦ inr (record m { active_id = id }, tt)
  ]

  -- `SelectCandidate`
  unfoldable pub choose_candidate : Text → Text → Entry P → Change (Entry P) ConnectionCandidate
  unfolding with_keys select_candidate
  choose_candidate key_id server_id e = with_keys e (select_candidate key_id server_id e.keys)

  unfoldable pub first_key_id : List (Key P) → Text
  first_key_id [] = []
  first_key_id (k ∷ ks) = k.id

  unfoldable pub choose_with : Text → Text → Entry P → Change (Entry P) ConnectionCandidate
  unfolding choose_candidate
  choose_with key_id server_id e =
      if is_empty key_id
      then inl (of_keys Keys.State.not_found)
      else choose_candidate key_id server_id e

  unfoldable pub change_server : Text → Entry P → Change (Entry P) ConnectionCandidate
  unfolding find_server first_key_id choose_with
  change_server server_id e = elim (find_server e.servers server_id) [
    | none ↦ inl servers_not_found
    | some srv ↦
        choose_with (if e.keys.has_active then e.keys.active.key_id else first_key_id e.keys.keys)
          srv.id e
  ]

  unfoldable pub key_for_server : List (Key P) → Text → Text
  key_for_server [] server_id = []
  key_for_server (k ∷ ks) server_id =
      if text_eq k.server_id server_id then k.id else key_for_server ks server_id

  -- The id of the server that is active, or the empty one.
  unfoldable pub previous_server : Entry P → Text
  previous_server e = if e.keys.has_active then e.keys.active.server_id else []

  unfoldable pub on_choice :
      {A : Type 0} → (Server → Change (Entry P) A) → Choice → Change (Entry P) A
  on_choice f (chosen srv) = f srv
  on_choice f err_not_found = inl servers_not_found
  on_choice f err_empty = inl servers_empty
  on_choice f Choice.panics = inl panicked

  unfoldable pub use_server : Entry P → Server → Change (Entry P) ConnectionCandidate
  unfolding key_for_server first_key_id choose_with
  use_server e srv =
      let key_id = key_for_server e.keys.keys srv.id in
      choose_with (if is_empty key_id then first_key_id e.keys.keys else key_id) srv.id e

  unfoldable pub select_server_mode : Mode → Text → Entry P → Change (Entry P) ConnectionCandidate
  unfolding on_choice use_server select previous_server
  select_server_mode mode manual_id e =
      on_choice (use_server e) (select mode e.servers manual_id (previous_server e))

  unfoldable pub rotate_to : Entry P → Server → Change (Entry P) ConnectionCandidate
  unfolding key_for_server with_keys rotate_key choose_candidate
  rotate_to e srv =
      let key_id = key_for_server e.keys.keys srv.id in
      if is_empty key_id then with_keys e (rotate_key e.keys) else choose_candidate key_id srv.id e

  -- `Rotate`
  unfoldable pub rotate_entry : Entry P → Change (Entry P) ConnectionCandidate
  unfolding on_choice rotate_to select previous_server with_keys rotate_key
  rotate_entry e =
      if ltb 1 (length e.servers)
      then on_choice (rotate_to e) (select rotate e.servers [] (previous_server e))
      else with_keys e (rotate_key e.keys)

  unfoldable pub commit_last_known_good : ℕ → Entry P → Change (Entry P) LastKnownGood
  unfolding with_keys commit_good
  commit_last_known_good now e = with_keys e (commit_good now e.keys)

  -- `Rollback`
  unfoldable pub roll_back_entry : Entry P → Change (Entry P) ConnectionCandidate
  unfolding with_keys rollback
  roll_back_entry e = with_keys e (rollback e.keys)
