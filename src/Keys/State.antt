-- ===== src/Keys/State.antt =====
-- src/internal/keys: keys, candidates and the lifecycle of a profile (types.go, manager.go), with
-- its snapshot (snapshot.go). `P` is the type of the connection parameters, which this package
-- only copies. Times are numbers.
use blacktemple_kn.Prelude.{
  zero, ℤ, pos, negsuc, ℕ, suc, ◌%◌, ◌==◌, Bool, true, false, ◌&&◌, if◌then◌else◌, Option, none,
  some, List, [], ◌∷◌, ◌++◌, map, length, get_elem?, Text, text_eq, is_empty, codes,
}

pub record Key (P : Type 0) : Type 0 where
  pub id : Text
  pub profile_id : Text
  pub subscription_id : Text
  pub server_id : Text
  pub protocol : Text
  pub remark : Text
  pub secret : Text
  pub params : P

pub record ConnectionCandidate : Type 0 where
  pub id : Text
  pub profile_id : Text
  pub key_id : Text
  pub server_id : Text

pub record LastKnownGood : Type 0 where
  pub profile_id : Text
  pub key_id : Text
  pub server_id : Text
  pub saved_at : ℕ

pub record State (P : Type 0) : Type 0 where
  pub profile_id : Text
  pub keys : List (Key P)
  pub active : ConnectionCandidate
  pub lkg : LastKnownGood
  pub has_active : Bool
  pub has_lkg : Bool
  pub rotate_at : ℤ

pub record StateSnapshot (P : Type 0) : Type 0 where
  pub profile_id : Text
  pub keys : List (Key P)
  pub active : ConnectionCandidate
  pub has_active : Bool
  pub lkg : LastKnownGood
  pub has_lkg : Bool
  pub rotate_at : ℤ

pub data Error : Type 0 where
  not_found no_candidate no_last_known_good : Error

-- `panics` is an index out of range.
pub data Result (A : Type 0) : Type 0 where
  ok : A → Result A
  fails : Error → Result A
  panics : Result A

abbrev pub no_active : ConnectionCandidate
no_active = record { id = []; profile_id = []; key_id = []; server_id = [] }

abbrev pub no_lkg : LastKnownGood
no_lkg = record { profile_id = []; key_id = []; server_id = []; saved_at = 0 }

unfoldable pub candidate_id : Text → Text → Text → Text
candidate_id profile key server = profile ++ (codes ":" ++ (key ++ (codes ":" ++ server)))

-- A candidate `withID`.
unfoldable pub candidate : Text → Text → Text → ConnectionCandidate
unfolding candidate_id
candidate profile key server = record {
  id = candidate_id profile key server;
  profile_id = profile;
  key_id = key;
  server_id = server;
}

abbrev negated : ℕ → ℤ
negated zero = pos 0
negated (suc m) = negsuc m

-- `(at + 1) % n`, which has the sign of the dividend.
unfoldable pub next_position : ℤ → ℕ → ℤ
next_position (pos r) n = pos (suc r % n)
next_position (negsuc r) n = negated (r % n)

module _ {P : Type 0} where
  unfoldable pub new_state : Text → List (Key P) → State P
  new_state profile ks = record {
    profile_id = profile;
    keys = ks;
    active = no_active;
    lkg = no_lkg;
    has_active = false;
    has_lkg = false;
    rotate_at = pos 0;
  }

  unfoldable pub set_keys : List (Key P) → State P → State P
  set_keys ks s = record s { keys = ks }

  -- `State.Key`
  unfoldable pub find_key : List (Key P) → Text → Option (Key P)
  find_key [] wanted = none
  find_key (k ∷ ks) wanted = if text_eq k.id wanted then some k else find_key ks wanted

  unfoldable pub select_candidate : Text → Text → State P → State P × Result ConnectionCandidate
  unfolding find_key candidate
  select_candidate key_id server_id s = elim (find_key s.keys key_id) [
    | none ↦ (s, fails not_found)
    | some k ↦
        let c =
          candidate s.profile_id k.id (if is_empty server_id then k.server_id else server_id) in
        (record s { active = c; has_active = true }, ok c)
  ]

  unfoldable pub commit_good : ℕ → State P → State P × Result LastKnownGood
  commit_good now s =
      let good : LastKnownGood = (record {
        profile_id = s.active.profile_id;
        key_id = s.active.key_id;
        server_id = s.active.server_id;
        saved_at = now;
      }) in
      if s.has_active
      then (record s { lkg = good; has_lkg = true }, ok good)
      else (s, fails no_candidate)

  unfoldable pub rollback : State P → State P × Result ConnectionCandidate
  unfolding candidate
  rollback s =
      let c = candidate s.lkg.profile_id s.lkg.key_id s.lkg.server_id in
      if s.has_lkg
      then (record s { active = c; has_active = true }, ok c)
      else (s, fails no_last_known_good)

  -- The keys with the first one of the id replaced; where there is none, with the new one behind.
  unfoldable pub replaced : Text → Key P → List (Key P) → List (Key P)
  replaced old next [] = next ∷ []
  replaced old next (k ∷ ks) = if text_eq k.id old then next ∷ ks else k ∷ replaced old next ks

  unfoldable pub replace_key : Text → Key P → State P → State P × Result ConnectionCandidate
  unfolding replaced select_candidate
  replace_key old next s =
      select_candidate next.id next.server_id (record s { keys = replaced old next s.keys })

  -- The key at the position `i`, which is kept as `rotateAt`.
  unfoldable pub select_at : ℕ → State P → State P × Result ConnectionCandidate
  unfolding select_candidate
  select_at i s = elim (get_elem? s.keys i) [
    | none ↦ (s, panics)
    | some k ↦ select_candidate k.id k.server_id s
  ]

  -- Is the key at the position `i` the active one?
  unfoldable pub is_active : ℕ → State P → Bool
  is_active i s = elim (get_elem? s.keys i) [
    | none ↦ false
    | some k ↦ s.has_active && text_eq k.id s.active.key_id
  ]

  -- `RotateKey` from the new position on. A negative one is out of range.
  unfoldable pub rotate_from : ℤ → State P → State P × Result ConnectionCandidate
  unfolding select_at is_active
  rotate_from (negsuc r) s = (record s { rotate_at = negsuc r }, panics)
  rotate_from (pos first) s =
      let second = suc first % length s.keys in
      if is_active first s
      then select_at second (record s { rotate_at = pos second })
      else select_at first (record s { rotate_at = pos first })

  unfoldable pub rotate_key : State P → State P × Result ConnectionCandidate
  unfolding select_at next_position rotate_from
  rotate_key s =
      if length s.keys == 0
      then (s, fails not_found)
      else if length s.keys == 1
      then select_at 0 s
      else rotate_from (next_position s.rotate_at (length s.keys)) s

  -- `Export` copies each key field by field.
  unfoldable pub copy_key : Key P → Key P
  copy_key k = record {
    id = k.id;
    profile_id = k.profile_id;
    subscription_id = k.subscription_id;
    server_id = k.server_id;
    protocol = k.protocol;
    remark = k.remark;
    secret = k.secret;
    params = k.params;
  }

  unfoldable pub export : State P → StateSnapshot P
  unfolding copy_key
  export s = record {
    profile_id = s.profile_id;
    keys = map copy_key s.keys;
    active = s.active;
    has_active = s.has_active;
    lkg = s.lkg;
    has_lkg = s.has_lkg;
    rotate_at = s.rotate_at;
  }

  unfoldable pub import_state : StateSnapshot P → State P
  unfolding new_state
  import_state snap = record (new_state snap.profile_id snap.keys) {
    active = snap.active;
    has_active = snap.has_active;
    lkg = snap.lkg;
    has_lkg = snap.has_lkg;
    rotate_at = snap.rotate_at;
  }
