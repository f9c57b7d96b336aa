-- ===== src/Examples/Attempts.antt =====
-- The theorems of the order of candidates at concrete inputs.
use blacktemple_kn.Prelude.{
  ℕ, ◌≡◌, refl, some, none, List, [], ◌∷◌, codes, Text, pos, text_eq, length,
}
use blacktemple_kn.Keys.State.{Key, LastKnownGood}
use blacktemple_kn.Servers.Select.{Server}
use blacktemple_kn.Connection.Candidates.{
  CandidatePair, candidate_order, is_vless, find_server_by_id,
}
use blacktemple_kn.Connection.Complete.{IsTried, candidate_order-IsTried}
use blacktemple_kn.Connection.Order.{IsOrder, candidate_order-IsOrder}

abbrev key : Text → Text → Key ℕ
key id server = record {
  id = id;
  profile_id = codes "p";
  subscription_id = codes "s";
  server_id = server;
  protocol = codes "VLESS";
  remark = [];
  secret = codes "x";
  params = 0;
}

abbrev server : Text → Server
server id = record {
  id = id;
  profile_id = codes "p";
  host = codes "example.org";
  port = pos 443;
  transport = codes "tcp";
  security = codes "reality";
  country_id = id;
  remark = [];
}

abbrev all_keys : List (Key ℕ)
all_keys = key (codes "a") (codes "nl") ∷ key (codes "b") (codes "de") ∷ []

abbrev all_servers : List Server
all_servers = server (codes "nl") ∷ server (codes "de") ∷ []

abbrev good : LastKnownGood
good = record { profile_id = codes "p"; key_id = codes "b"; server_id = codes "de"; saved_at = 1 }

abbrev best : CandidatePair ℕ
best = record { key = key (codes "b") (codes "de"); srv = server (codes "de") }

two_candidates : length (candidate_order (some good) none all_keys all_servers) ≡ 2
unfolding candidate_order text_eq
two_candidates = refl

candidate_order-IsOrder_example : IsOrder (candidate_order (some good) none all_keys all_servers)
candidate_order-IsOrder_example = candidate_order-IsOrder (some good) none all_keys all_servers

candidate_order-IsTried_example :
    IsTried
      (record { key = key (codes "a") (codes "nl"); srv = server (codes "nl") })
      (candidate_order (some good) none all_keys all_servers)
unfolding find_server_by_id text_eq is_vless
candidate_order-IsTried_example =
    candidate_order-IsTried (some good) none all_keys all_servers 0 (key (codes "a") (codes "nl"))
      (server (codes "nl")) ((refl, tt), (tt, tt)) ((refl, tt), ((refl, tt), tt)) refl refl refl
