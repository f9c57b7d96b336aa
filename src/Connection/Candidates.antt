-- ===== src/Connection/Candidates.antt =====
-- src/internal/connection/service.go: `candidateOrder`. The last known good candidate and the
-- selected one, which the profile service returns or has not, are arguments.
use blacktemple_kn.Prelude.{
  Bool, not, if◌then◌else◌, Option, none, some, List, [], ◌∷◌, ◌++◌, any, Text, codes, text_eq,
}
use blacktemple_kn.Supervisor.Recovery.{equal_fold}
use blacktemple_kn.Keys.State.{Key, ConnectionCandidate, LastKnownGood}
use blacktemple_kn.Servers.Select.{Server}

pub record CandidatePair (P : Type 0) : Type 0 where
  pub key : Key P
  pub srv : Server

-- The map `seen`, as the list of its ids, and `out`.
pub record Progress (P : Type 0) : Type 0 where
  pub seen : List Text
  pub out : List (CandidatePair P)

unfoldable pub find_server_by_id : List Server → Text → Option Server
find_server_by_id [] id = none
find_server_by_id (s ∷ ss) id = if text_eq s.id id then some s else find_server_by_id ss id

module _ {P : Type 0} where
  -- `findKey`
  unfoldable pub find_key : List (Key P) → Text → Option (Key P)
  find_key [] id = none
  find_key (k ∷ ks) id = if text_eq k.id id then some k else find_key ks id

  unfoldable pub is_vless : CandidatePair P → Bool
  unfolding equal_fold
  is_vless p = equal_fold (λ c. c) p.key.protocol (codes "vless")

  unfoldable pub pair_id : CandidatePair P → Text
  pair_id p = p.key.id ++ (codes ":" ++ p.srv.id)

  unfoldable pub push : CandidatePair P → Progress P → Progress P
  unfolding is_vless pair_id
  push p g =
      if not (is_vless p)
      then g
      else if any (text_eq (pair_id p)) g.seen
      then g
      else record { seen = pair_id p ∷ g.seen; out = g.out ++ p ∷ [] }

  -- The key and the server of the ids, where both are found.
  unfoldable pub push_found : List (Key P) → List Server → Text → Text → Progress P → Progress P
  unfolding find_key find_server_by_id push
  push_found ks srvs key_id server_id g = elim (find_key ks key_id) [
    | none ↦ g
    | some k ↦ elim (find_server_by_id srvs server_id) [
      | none ↦ g
      | some srv ↦ push (record { key = k; srv = srv }) g
    ]
  ]

  unfoldable pub push_lkg :
      List (Key P) → List Server → Option LastKnownGood → Progress P → Progress P
  unfolding push_found
  push_lkg ks srvs none g = g
  push_lkg ks srvs (some lkg) g = push_found ks srvs lkg.key_id lkg.server_id g

  unfoldable pub push_selected :
      List (Key P) → List Server → Option ConnectionCandidate → Progress P → Progress P
  unfolding push_found
  push_selected ks srvs none g = g
  push_selected ks srvs (some c) g = push_found ks srvs c.key_id c.server_id g

  unfoldable pub push_key : List Server → Key P → Progress P → Progress P
  unfolding find_server_by_id push
  push_key srvs k g = elim (find_server_by_id srvs k.server_id) [
    | none ↦ g
    | some srv ↦ push (record { key = k; srv = srv }) g
  ]

  -- The loop over the keys.
  unfoldable pub push_all : List Server → List (Key P) → Progress P → Progress P
  unfolding push_key
  push_all srvs [] g = g
  push_all srvs (k ∷ ks) g = push_all srvs ks (push_key srvs k g)

  unfoldable pub candidate_order :
      Option LastKnownGood
      → Option ConnectionCandidate
      → List (Key P)
      → List Server
      → List (CandidatePair P)
  unfolding push_lkg push_selected push_all
  candidate_order lkg selected ks srvs =
      let start = push_lkg ks srvs lkg (record { seen = []; out = [] }) in
      (push_all srvs ks (push_selected ks srvs selected start)).out
