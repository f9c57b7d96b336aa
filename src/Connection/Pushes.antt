-- ===== src/Connection/Pushes.antt =====
-- src/internal/connection/service.go: what the push of a pair that is allowed keeps, all pushes keep,
-- where the pairs that are found in the lists are allowed.
use blacktemple_kn.Prelude.{
  Option, none, some, List, [], ◌∷◌, Text, Option-cases, inl, inr, All, ◌≡◌,
}
use blacktemple_kn.Keys.State.{Key, ConnectionCandidate, LastKnownGood}
use blacktemple_kn.Servers.Select.{Server}
use blacktemple_kn.Connection.Candidates.{
  CandidatePair, Progress, find_server_by_id, find_key, push, push_found, push_lkg, push_selected,
  push_key, push_all,
}

module _ {P : Type 0} where
  -- The key is allowed with the server that it names.
  abbrev pub Allows : (CandidatePair P → Type 0) → List Server → Key P → Type 0
  Allows May srvs k =
      (srv : Server)
      → find_server_by_id srvs k.server_id ≡ some srv
      → May (record { key = k; srv = srv })

  -- A key and a server that are found by their ids are allowed together.
  abbrev pub AllowsFound : (CandidatePair P → Type 0) → List (Key P) → List Server → Type 0
  AllowsFound May ks srvs =
      (k s : Text) (key : Key P) (srv : Server)
      → find_key ks k ≡ some key
      → find_server_by_id srvs s ≡ some srv
      → May (record { key = key; srv = srv })

  module _ (Ok : Progress P → Type 0) (May : CandidatePair P → Type 0)
      (pushes : (p : CandidatePair P) (g : Progress P) → May p → Ok g → Ok (push p g)) where
    push_found-Ok :
        (ks : List (Key P)) (srvs : List Server) (k s : Text) (g : Progress P)
        → AllowsFound May ks srvs
        → Ok g
        → Ok (push_found ks srvs k s g)
    unfolding push_found
    push_found-Ok ks srvs k s g may h = elim (Option-cases (find_key ks k)) [
      | inl e ↦ rw (push_found, e) h
      | inr (key, e) ↦ elim (Option-cases (find_server_by_id srvs s)) [
        | inl f ↦ rw (push_found, e, f) h
        | inr (srv, f) ↦
            rw (push_found, e, f)
              (pushes (record { key = key; srv = srv }) g (may k s key srv e f) h)
      ]
    ]

    pub push_selected-Ok :
        (ks : List (Key P)) (srvs : List Server) (c : Option ConnectionCandidate) (g : Progress P)
        → AllowsFound May ks srvs
        → Ok g
        → Ok (push_selected ks srvs c g)
    unfolding push_selected
    push_selected-Ok ks srvs none g may h = h
    push_selected-Ok ks srvs (some c) g may h = push_found-Ok ks srvs c.key_id c.server_id g may h

    push_lkg-Ok :
        (ks : List (Key P)) (srvs : List Server) (c : Option LastKnownGood) (g : Progress P)
        → AllowsFound May ks srvs
        → Ok g
        → Ok (push_lkg ks srvs c g)
    unfolding push_lkg
    push_lkg-Ok ks srvs none g may h = h
    push_lkg-Ok ks srvs (some c) g may h = push_found-Ok ks srvs c.key_id c.server_id g may h

    -- Before the loop over the keys.
    pub start-Ok :
        (ks : List (Key P)) (srvs : List Server) (lkg : Option LastKnownGood)
        (c : Option ConnectionCandidate) (g : Progress P)
        → AllowsFound May ks srvs
        → Ok g
        → Ok (push_selected ks srvs c (push_lkg ks srvs lkg g))
    start-Ok ks srvs lkg c g may h =
        push_selected-Ok ks srvs c (push_lkg ks srvs lkg g) may (push_lkg-Ok ks srvs lkg g may h)

    pub push_key-Ok :
        (srvs : List Server) (k : Key P) (g : Progress P)
        → Allows May srvs k
        → Ok g
        → Ok (push_key srvs k g)
    unfolding push_key
    push_key-Ok srvs k g may h = elim (Option-cases (find_server_by_id srvs k.server_id)) [
      | inl e ↦ rw (push_key, e) h
      | inr (srv, e) ↦ rw (push_key, e) (pushes (record { key = k; srv = srv }) g (may srv e) h)
    ]

    pub push_all-Ok :
        (srvs : List Server) (ks : List (Key P)) (g : Progress P)
        → All (Allows May srvs) ks
        → Ok g
        → Ok (push_all srvs ks g)
    unfolding push_all
    push_all-Ok srvs [] g may h = h
    push_all-Ok srvs (k ∷ ks) g may h =
        push_all-Ok srvs ks (push_key srvs k g) may.1 (push_key-Ok srvs k g may.0 h)

  -- Where every pair is allowed.
  abbrev pub Any : CandidatePair P → Type 0
  Any p = Unit

  pub Any-Allows : (srvs : List Server) (ks : List (Key P)) → All (Allows Any srvs) ks
  Any-Allows srvs [] = tt
  Any-Allows srvs (k ∷ ks) = (λ srv e. tt, Any-Allows srvs ks)
