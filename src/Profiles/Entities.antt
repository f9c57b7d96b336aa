-- ===== src/Profiles/Entities.antt =====
-- src/internal/profiles: which share entries are published (runnable.go, resolver.go), and the keys
-- and servers that are made of them (service.go). src/internal/xray, which checks credentials and
-- generates configurations, is the parameter `Xray`.
use blacktemple_kn.Prelude.{
  ℕ, Bool, true, false, not, ◌&&◌, if◌then◌else◌, List, [], ◌∷◌, ◌++◌, any, keep, leb, ◌-◌, map,
  Text, text_eq, is_empty, codes,
}
use blacktemple_kn.Strings.{trim_space, to_lower}
use blacktemple_kn.Supervisor.Recovery.{equal_fold}
use blacktemple_kn.Keys.State.{
  Key, State, ConnectionCandidate, set_keys, select_candidate, Result, ok,
}
use blacktemple_kn.Servers.Select.{Server}
use blacktemple_kn.Profiles.State.{ParsedShare, Entry, resolution_of}

-- `generates` says that `validateResolvedGenerate` has no error.
pub record Xray (P : Type 0) : Type 0 where
  pub user_id_valid : Text → Bool
  pub user_id_canonical : Text → Bool
  pub reality_key_valid : P → Bool
  pub reality_short_id_valid : P → Bool
  pub generates : ParsedShare P → Bool

abbrev upper_char : ℕ → ℕ
upper_char c = if leb b'a' c && leb c b'z' then c - 32 else c

-- The id of `Catalog.Register` of src/internal/countries/catalog.go.
unfoldable pub country_id : Text → Text
unfolding trim_space
country_id hint = map upper_char (trim_space hint)

unfoldable pub one_of : Text → List Text → Bool
one_of t ts = any (text_eq t) ts

-- The servers whose ids are not seen.
unfoldable pub unseen : List Text → List Server → List Server
unfolding one_of
unseen seen [] = []
unseen seen (s ∷ ss) = if one_of s.id seen then unseen seen ss else s ∷ unseen (s.id ∷ seen) ss

unfoldable pub merge_servers : List Server → List Server → List Server
unfolding unseen
merge_servers old next = unseen [] (old ++ next)

module _ {P : Type 0} where
  unfoldable pub publishable_entry : Xray P → ParsedShare P → Bool
  unfolding equal_fold to_lower trim_space one_of
  publishable_entry x e =
      let sec = to_lower (trim_space e.security) in
      if not (equal_fold (λ c. c) e.protocol (codes "vless"))
      then true
      else if not (x.user_id_valid e.secret)
      then false
      else if text_eq sec (codes "reality")
      then x.reality_key_valid e.params && x.reality_short_id_valid e.params
      else one_of sec (codes "tls" ∷ codes "xtls-vision" ∷ codes "none" ∷ [])

  unfoldable pub filter_publishable : Xray P → List (ParsedShare P) → List (ParsedShare P)
  unfolding publishable_entry
  filter_publishable x es = keep (publishable_entry x) es

  unfoldable pub resolver_publishable : Xray P → ParsedShare P → Bool
  unfolding publishable_entry equal_fold to_lower trim_space one_of
  resolver_publishable x e =
      if not (publishable_entry x e)
      then false
      else if equal_fold (λ c. c) e.security (codes "reality")
      then false
      else if equal_fold (λ c. c) e.protocol (codes "vless") && not (x.user_id_canonical e.secret)
      then false
      else one_of (to_lower (trim_space e.security))
          (codes "tls" ∷ codes "xtls-vision" ∷ codes "none" ∷ [])
        && one_of (to_lower (trim_space e.transport)) (codes "ws" ∷ codes "xhttp" ∷ [])

  unfoldable pub resolver_candidates : Xray P → List (ParsedShare P) → List (ParsedShare P)
  unfolding resolver_publishable
  resolver_candidates x es = keep (λ e. resolver_publishable x e && x.generates e) es

  unfoldable pub had_vless : List (ParsedShare P) → Bool
  unfolding equal_fold
  had_vless es = any (λ e. equal_fold (λ c. c) e.protocol (codes "vless")) es

  abbrev pub no_entries : List (ParsedShare P) → Bool
  no_entries [] = true
  no_entries (e ∷ es) = false

  unfoldable pub source_kind_of : Text → List (ParsedShare P) → List (ParsedShare P) → Text
  unfolding had_vless
  source_kind_of kind entries published =
      if text_eq kind (codes "url")
      then codes "blackkey"
      else if text_eq kind (codes "json")
      then codes "json"
      else if no_entries published && had_vless entries
      then codes "blackkey"
      else codes "share"

  unfoldable pub server_of : Text → ParsedShare P → Server
  unfolding country_id
  server_of profile e = record {
    id = e.stable_id;
    profile_id = profile;
    host = e.host;
    port = e.port;
    transport = e.transport;
    security = e.security;
    country_id = if is_empty e.country_hint then [] else country_id e.country_hint;
    remark = e.remark;
  }

  unfoldable pub key_of : Text → Text → ParsedShare P → Key P
  key_of profile subscription e = record {
    id = e.stable_id;
    profile_id = profile;
    subscription_id = subscription;
    server_id = e.stable_id;
    protocol = e.protocol;
    remark = e.remark;
    secret = e.secret;
    params = e.params;
  }

  -- The servers of `entities`; `seen` are the ids of those before.
  unfoldable pub new_servers : Text → List Text → List (ParsedShare P) → List Server
  unfolding server_of one_of
  new_servers profile seen [] = []
  new_servers profile seen (e ∷ es) =
      if one_of e.stable_id seen
      then new_servers profile seen es
      else server_of profile e ∷ new_servers profile (e.stable_id ∷ seen) es

  unfoldable pub entities : Text → Text → List (ParsedShare P) → List (Key P) × List Server
  unfolding key_of new_servers
  entities profile subscription es =
      (map (key_of profile subscription) es, new_servers profile [] es)

  -- Select the key of the front, where there is one.
  unfoldable pub select_first : List (Key P) → State P → State P
  unfolding select_candidate
  select_first [] s = s
  select_first (k ∷ ks) s = (select_candidate k.id k.server_id s).0

  unfoldable pub or_select_first : List (Key P) → State P × Result ConnectionCandidate → State P
  unfolding select_first
  or_select_first ks (s, ok c) = s
  or_select_first ks (s, _) = select_first ks s

  -- The active candidate is kept where its key is still there.
  unfoldable pub reselect : List (Key P) → State P → State P
  unfolding or_select_first select_candidate select_first
  reselect ks s =
      if s.has_active
      then or_select_first ks (select_candidate s.active.key_id s.active.server_id s)
      else select_first ks s

  unfoldable pub replace_entities : Text → List (ParsedShare P) → Entry P → Entry P
  unfolding entities set_keys reselect resolution_of
  replace_entities id published e =
      let (ks, srvs) = entities id e.sub.id published in
      record e {
        keys = reselect ks (set_keys ks e.keys);
        servers = srvs;
        profile = record (e.profile) { resolution_state = resolution_of ks };
      }

  unfoldable pub replace_resolved : List (ParsedShare P) → Entry P → Entry P
  unfolding replace_entities
  replace_resolved published e = replace_entities e.profile.id published e
