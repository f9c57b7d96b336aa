-- ===== src/Auth/Sessions.antt =====
-- src/internal/auth/session.go: the session store. The map of sessions is a list; its order stands
-- for the order in which a loop over the map meets them, which Go leaves open. Times and durations
-- are nanoseconds. The random id, or the error of the random source, is an argument.
use blacktemple_kn.Prelude.{
  ℕ, zero, suc, ◌+◌, ◌*◌, ltb, leb, not, if◌then◌else◌, Option, none, some, List, [], ◌∷◌, length,
  keep, ℤ, nonpositive, magnitude, Text, text_eq, is_empty, ◌⊎◌, inl, inr,
}

pub record Session : Type 0 where
  pub id : Text
  pub created_at : ℕ
  pub expires_at : ℕ

pub record SessionStore : Type 0 where
  pub items : List Session
  pub ttl : ℕ
  pub max : ℕ

abbrev pub default_session_ttl : ℕ
default_session_ttl = 12 * 3600 * 1000000000

abbrev pub default_max_sessions : ℕ
default_max_sessions = 32

unfoldable pub new_session_store : ℤ → ℤ → SessionStore
new_session_store ttl max = record {
  items = [];
  ttl = if nonpositive ttl then default_session_ttl else magnitude ttl;
  max = if nonpositive max then default_max_sessions else magnitude max;
}

-- `delete(s.items, id)`
unfoldable pub delete : Text → List Session → List Session
delete id = keep (λ s. not (text_eq s.id id))

-- `s.items[id]`
unfoldable pub find : Text → List Session → Option Session
find id [] = none
find id (s ∷ ss) = if text_eq s.id id then some s else find id ss

unfoldable pub evict_expired : ℕ → List Session → List Session
evict_expired now = keep (λ s. ltb now s.expires_at)

-- The loop of `evictOldestLocked`, with the oldest session so far.
unfoldable pub oldest_from : Option Session → List Session → Option Session
oldest_from best [] = best
oldest_from none (s ∷ ss) = oldest_from (some s) ss
oldest_from (some b) (s ∷ ss) =
    oldest_from (some (if ltb s.created_at b.created_at then s else b)) ss

-- A session with an empty id is not deleted.
unfoldable pub evict_oldest : List Session → List Session
unfolding oldest_from delete
evict_oldest items = elim (oldest_from none items) [
  | none ↦ items
  | some s ↦ if is_empty s.id then items else delete s.id items
]

-- `for len(s.items) >= s.max`, for at most as many rounds as the first argument says.
unfoldable pub make_room : ℕ → ℕ → List Session → List Session
unfolding evict_oldest
make_room zero max items = items
make_room (suc rounds) max items =
    let rest = make_room rounds max (evict_oldest items) in
    if leb max (length items) then rest else items

-- The id and its expiry, or the error of the random source.
unfoldable pub create : ℕ → Text ⊎ Text → SessionStore → SessionStore × (Text ⊎ (Text × ℕ))
unfolding evict_expired make_room delete
create now (inl error) s = (s, inl error)
create now (inr id) s =
    let expires = now + s.ttl in
    let live = evict_expired now s.items in
    let room = make_room (length live) s.max live in
    (
      record s {
        items = record { id = id; created_at = now; expires_at = expires } ∷ delete id room;
      },
      inr (id, expires),
    )

unfoldable pub lookup : ℕ → Text → SessionStore → SessionStore × Option Session
unfolding find delete
lookup now id s = if is_empty id then (s, none) else elim (find id s.items) [
  | none ↦ (s, none)
  | some found ↦
      if ltb now found.expires_at
      then (s, some found)
      else (record s { items = delete id s.items }, none)
]

unfoldable pub revoke : Text → SessionStore → SessionStore
unfolding delete
revoke id s = if is_empty id then s else record s { items = delete id s.items }

-- Any operation, for sequences of them.
pub data Operation : Type 0 where
  creates : ℕ → Text ⊎ Text → Operation
  looks_up : ℕ → Text → Operation
  revokes : Text → Operation

unfoldable pub operate : Operation → SessionStore → SessionStore
unfolding create lookup revoke
operate (creates now drawn) s = (create now drawn s).0
operate (looks_up now id) s = (lookup now id s).0
operate (revokes id) s = revoke id s

unfoldable pub operate_all : List Operation → SessionStore → SessionStore
unfolding operate
operate_all [] s = s
operate_all (o ∷ os) s = operate_all os (operate o s)
