-- ===== src/Profiles/EntryKept.antt =====
-- src/internal/profiles: the operations on one profile keep its entry in order.
use blacktemple_kn.Prelude.{
  ℤ, pos, negsuc, ℕ, suc, ◌%◌, ◌==◌, ltb, List, [], ◌∷◌, length, get_elem?, Text, is_empty, inl,
  inr, ◌≡◌, Option-cases, if-both,
}
use blacktemple_kn.Keys.State.{
  rotate_from, next_position, Key, State, ConnectionCandidate, LastKnownGood, Result, ok, fails,
  no_active, no_lkg, find_key, select_candidate, commit_good, rollback, replaced, replace_key,
  rotate_key, select_at, is_active,
}
use blacktemple_kn.Servers.Select.{
  Server, Mode, rotate, Choice, chosen, err_not_found, err_empty, select,
}
use blacktemple_kn.Profiles.State.{Entry}
use blacktemple_kn.Profiles.Service.{
  Change, with_keys, choose_candidate, choose_with, change_server, find_server, key_for_server,
  previous_server, on_choice, use_server, select_server_mode, rotate_to, rotate_entry,
  commit_last_known_good, roll_back_entry,
}
use blacktemple_kn.Profiles.Entities.{select_first, or_select_first, reselect}
use blacktemple_kn.Profiles.Invariant.{IsBlank, IsEntry}

-- What a change gives, where it has no error.
abbrev pub Gives {ℓ} : {M A : Type 0} → (M → Type ℓ) → Change M A → Type ℓ
Gives Q (inl e) = Unit
Gives Q (inr (m, a)) = Q m

module _ {P : Type 0} where
  -- The part of `IsEntry` that is about the keys.
  abbrev pub IsState : Text → State P → Type 0
  IsState id s =
      (s.profile_id ≡ id)
      × (IsBlank s.has_active s.active no_active × IsBlank s.has_lkg s.lkg no_lkg)

  select_candidate-IsState :
      (id key server : Text) (s : State P)
      → IsState id s
      → IsState id (select_candidate key server s).0
  unfolding select_candidate
  select_candidate-IsState id key server s h = elim (Option-cases (find_key s.keys key)) [
    | inl n ↦ rw (select_candidate, n) h
    | inr (k, f) ↦ rw (select_candidate, f) (h.0, (tt, h.1.1))
  ]

  commit_good-IsState :
      (id : Text) (now : ℕ) (s : State P) → IsState id s → IsState id (commit_good now s).0
  unfolding commit_good
  commit_good-IsState id now s h =
      if-both (λ (r : State P × Result LastKnownGood). IsState id r.0) s.has_active
        (h.0, (h.1.0, tt)) h

  rollback-IsState : (id : Text) (s : State P) → IsState id s → IsState id (rollback s).0
  unfolding rollback
  rollback-IsState id s h =
      if-both (λ (r : State P × Result ConnectionCandidate). IsState id r.0) s.has_lkg
        (h.0, (tt, h.1.1)) h

  select_at-IsState :
      (id : Text) (i : ℕ) (s : State P) → IsState id s → IsState id (select_at i s).0
  unfolding select_at
  select_at-IsState id i s h = elim (Option-cases (get_elem? s.keys i)) [
    | inl n ↦ rw (select_at, n) h
    | inr (k, f) ↦ rw (select_at, f) (select_candidate-IsState id k.id k.server_id s h)
  ]

  rotate_from-IsState :
      (id : Text) (at : ℤ) (s : State P) → IsState id s → IsState id (rotate_from at s).0
  unfolding rotate_from
  rotate_from-IsState id (negsuc r) s h = h
  rotate_from-IsState id (pos first) s h =
      let second = suc first % length s.keys in
      if-both (λ (r : State P × Result ConnectionCandidate). IsState id r.0) (is_active first s)
        (select_at-IsState id second (record s { rotate_at = pos second }) h)
        (select_at-IsState id first (record s { rotate_at = pos first }) h)

  rotate_key-IsState : (id : Text) (s : State P) → IsState id s → IsState id (rotate_key s).0
  unfolding rotate_key
  rotate_key-IsState id s h =
      let Q : State P × Result ConnectionCandidate → Type 0 = (λ r. IsState id r.0) in
      if-both Q (length s.keys == 0) h (
        if-both Q (length s.keys == 1) (select_at-IsState id 0 s h)
          (rotate_from-IsState id (next_position s.rotate_at (length s.keys)) s h))

  pub replace_key-IsState :
      (id old : Text) (next : Key P) (s : State P)
      → IsState id s
      → IsState id (replace_key old next s).0
  unfolding replace_key
  replace_key-IsState id old next s h =
      select_candidate-IsState id next.id next.server_id
        (record s { keys = replaced old next s.keys }) h

  pub select_first-IsState :
      (id : Text) (ks : List (Key P)) (s : State P) → IsState id s → IsState id (select_first ks s)
  unfolding select_first
  select_first-IsState id [] s h = h
  select_first-IsState id (k ∷ ks) s h = select_candidate-IsState id k.id k.server_id s h

  pub reselect-IsState :
      (id : Text) (ks : List (Key P)) (s : State P) → IsState id s → IsState id (reselect ks s)
  unfolding reselect
  reselect-IsState id ks s h =
      if-both (IsState id) s.has_active
        (either (select_candidate s.active.key_id s.active.server_id s)
          (select_candidate-IsState id s.active.key_id s.active.server_id s h))
        (select_first-IsState id ks s h)
    where
      either :
          (r : State P × Result ConnectionCandidate)
          → IsState id r.0
          → IsState id (or_select_first ks r)
      either (t, ok c) g = g
      either (t, fails e) g = select_first-IsState id ks t g
      either (t, Result.panics) g = select_first-IsState id ks t g

  pub IsEntry-IsState : (id : Text) (e : Entry P) → IsEntry id e → IsState id e.keys
  IsEntry-IsState id e h = (h.keys_id, (h.active, h.lkg))

  with_state :
      (id : Text) (e : Entry P) (s : State P)
      → IsEntry id e
      → IsState id s
      → IsEntry id (record e { keys = s })
  with_state id e s h g = record {
    named = h.named;
    profile_id = h.profile_id;
    keys_id = g.0;
    source_kind = h.source_kind;
    resolution = h.resolution;
    active = g.1.0;
    lkg = g.1.1;
  }

  pub with_keys-IsEntry :
      {A : Type 0} (id : Text) (e : Entry P) (r : State P × Result A)
      → IsEntry id e
      → IsState id r.0
      → Gives (IsEntry id) (with_keys e r)
  unfolding with_keys
  with_keys-IsEntry id e (s, ok a) h g = with_state id e s h g
  with_keys-IsEntry id e (s, fails x) h g = tt
  with_keys-IsEntry id e (s, Result.panics) h g = tt

  -- The operation keeps entries in order.
  abbrev pub Keeps : {A : Type 0} → (Entry P → Change (Entry P) A) → Type 0
  Keeps f = (id : Text) (e : Entry P) → IsEntry id e → Gives (IsEntry id) (f e)

  pub choose_candidate-Keeps : (key server : Text) → Keeps (choose_candidate key server)
  unfolding choose_candidate
  choose_candidate-Keeps key server id e h =
      with_keys-IsEntry id e (select_candidate key server e.keys) h
        (select_candidate-IsState id key server e.keys (IsEntry-IsState id e h))

  choose_with-Keeps : (key server : Text) → Keeps (choose_with key server)
  unfolding choose_with
  choose_with-Keeps key server id e h =
      if-both (Gives (IsEntry id)) (is_empty key) tt (choose_candidate-Keeps key server id e h)

  pub change_server-Keeps : (server : Text) → Keeps (change_server server)
  unfolding change_server
  change_server-Keeps server id e h = elim (Option-cases (find_server e.servers server)) [
    | inl n ↦ rw (change_server, n) tt
    | inr (srv, f) ↦ rw (change_server, f) (choose_with-Keeps _ srv.id id e h)
  ]

  on_choice-Gives :
      {A : Type 0} (id : Text) (f : Server → Change (Entry P) A) (c : Choice)
      → ((srv : Server) → Gives (IsEntry id) (f srv))
      → Gives (IsEntry id) (on_choice f c)
  unfolding on_choice
  on_choice-Gives id f (chosen srv) h = h srv
  on_choice-Gives id f err_not_found h = tt
  on_choice-Gives id f err_empty h = tt
  on_choice-Gives id f Choice.panics h = tt

  pub select_server_mode-Keeps :
      (mode : Mode) (manual : Text) → Keeps (select_server_mode mode manual)
  unfolding select_server_mode use_server
  select_server_mode-Keeps mode manual id e h =
      on_choice-Gives id (use_server e) (select mode e.servers manual (previous_server e))
        (λ srv. choose_with-Keeps _ srv.id id e h)

  pub rotate_entry-Keeps : Keeps rotate_entry
  unfolding rotate_entry rotate_to
  rotate_entry-Keeps id e h =
      let turned =
        with_keys-IsEntry id e (rotate_key e.keys) h
          (rotate_key-IsState id e.keys (IsEntry-IsState id e h)) in
      if-both (Gives (IsEntry id)) (ltb 1 (length e.servers))
        (on_choice-Gives id (rotate_to e) (select rotate e.servers [] (previous_server e)) (λ srv.
          if-both (Gives (IsEntry id)) (is_empty (key_for_server e.keys.keys srv.id)) turned
            (choose_candidate-Keeps (key_for_server e.keys.keys srv.id) srv.id id e h)))
        turned

  pub commit_last_known_good-Keeps : (now : ℕ) → Keeps (commit_last_known_good now)
  unfolding commit_last_known_good
  commit_last_known_good-Keeps now id e h =
      with_keys-IsEntry id e (commit_good now e.keys) h
        (commit_good-IsState id now e.keys (IsEntry-IsState id e h))

  pub roll_back_entry-Keeps : Keeps roll_back_entry
  unfolding roll_back_entry
  roll_back_entry-Keeps id e h =
      with_keys-IsEntry id e (rollback e.keys) h
        (rollback-IsState id e.keys (IsEntry-IsState id e h))
