-- ===== src/Examples/Choices.antt =====
-- The theorems of keys and servers at concrete inputs.
use blacktemple_kn.Prelude.{
  negsuc, ℕ, ◌<◌, true, false, ◌≡◌, ◌≢◌, refl, arith, List, [], ◌∷◌, Text, codes, text_eq, pos,
  text_eq,
}
use blacktemple_kn.Keys.State.{
  Key, State, ok, panics, new_state, candidate, rollback, commit_good, rotate_key,
}
use blacktemple_kn.Keys.Lifecycle.{Operation, selects, rotates, operate_all, operate}
use blacktemple_kn.Keys.Rollback.{rollback-restores}
use blacktemple_kn.Keys.Rotation.{Chooses, rotate_key-skips_active}
use blacktemple_kn.Servers.Select.{Server, chosen}
use blacktemple_kn.Servers.Rotation.{rotations, rotations_reach}

abbrev key : Text → Key ℕ
key id = record {
  id = id;
  profile_id = codes "p";
  subscription_id = codes "s";
  server_id = codes "nl";
  protocol = codes "vless";
  remark = [];
  secret = codes "x";
  params = 0;
}

abbrev two_keys : List (Key ℕ)
two_keys = key (codes "a") ∷ key (codes "b") ∷ []

abbrev operations : List (Operation ℕ)
operations = selects (codes "b") [] ∷ rotates ∷ []

abbrev profile : Text
profile = codes "p"

abbrev good : State ℕ
good = operate_all operations (new_state profile two_keys)

has_active : good.has_active ≡ true
unfolding operate_all operate rotate_key new_state text_eq
has_active = refl

abbrev later : State ℕ
later = operate_all (rotates ∷ []) (commit_good 9 good).0

rollback-restores_example :
    rollback later ≡ (record later { active = good.active; has_active = true }, ok good.active)
rollback-restores_example =
    rollback-restores profile two_keys operations (rotates ∷ []) 9 good later refl has_active refl
      refl

good_keys : good.keys ≡ two_keys
unfolding operate_all operate rotate_key new_state text_eq
good_keys = refl

abbrev active_state : State ℕ
active_state = record {
  profile_id = profile;
  keys = two_keys;
  active = candidate profile (codes "b") (codes "nl");
  lkg = record { profile_id = []; key_id = []; server_id = []; saved_at = 0 };
  has_active = true;
  has_lkg = false;
  rotate_at = pos 0;
}

-- A position that a file has below 0 is out of range.
negative_position_panics : (rotate_key (record active_state { rotate_at = negsuc 1 })).1 ≡ panics
unfolding rotate_key
negative_position_panics = refl

rotate_key-skips_active_example : Chooses active_state (λ k. k.id ≢ active_state.active.key_id)
unfolding text_eq
rotate_key-skips_active_example =
    rotate_key-skips_active active_state 0 refl ((refl, tt), (tt, tt)) (omega arith) refl

abbrev server : Text → Server
server id = record {
  id = id;
  profile_id = profile;
  host = codes "example.org";
  port = pos 443;
  transport = codes "tcp";
  security = codes "reality";
  country_id = id;
  remark = [];
}

abbrev two_servers : List Server
two_servers = server (codes "nl") ∷ server (codes "de") ∷ []

rotations_reach_example :
    (k : ℕ) × (k < 2)
    × (rotations two_servers k (server (codes "de")) ≡ chosen (server (codes "nl")))
unfolding text_eq
rotations_reach_example =
    rotations_reach two_servers 1 0 (server (codes "de")) (server (codes "nl"))
      (((refl, tt), (tt, tt)), (refl, (refl, tt))) refl refl
