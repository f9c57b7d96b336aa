-- ===== src/Auth/Bound.antt =====
-- src/internal/auth/session.go: the number of sessions.
use blacktemple_kn.Prelude.{
  ℕ, zero, suc, ◌≤◌, ◌<◌, get_elem?, All-get_elem?, ltb, leb, false, not, if◌then◌else◌, Option,
  none, some, List, [], ◌∷◌, length, keep, All, All-keep, length-keep-le, ℤ, nonpositive, magnitude,
  Text, text_eq, text_eq_refl, is_empty, inl, inr, ◌≡◌, refl, arith, Bool-cases, Option-cases,
  if-both,
}
use blacktemple_kn.Auth.Sessions.{
  Session, SessionStore, default_max_sessions, new_session_store, delete, find, evict_expired,
  oldest_from, evict_oldest, make_room, create, lookup, revoke, Operation, creates, looks_up,
  revokes, operate, operate_all,
}

-- The session has an id.
abbrev pub HasId : Session → Type 0
HasId s = is_empty s.id ≡ false

-- At most `max` sessions, each with an id.
abbrev pub Inv : SessionStore → Type 0
Inv s = (length s.items ≤ s.max) × All HasId s.items × (1 ≤ s.max)

-- A random id is not empty: it is the base64 text of 32 bytes.
abbrev pub IsDrawn : Operation → Type 0
IsDrawn (creates now (inr id)) = is_empty id ≡ false
IsDrawn _ = Unit

delete-lt :
    (items : List Session) (i : ℕ) (s : Session)
    → get_elem? items i ≡ some s
    → length (delete s.id items) < length items
unfolding delete
delete-lt [] i s h = ground arith
delete-lt (x ∷ xs) zero s h =
    let shorter = length-keep-le (λ y. not (text_eq y.id s.id)) xs in
    ground (arith, h, text_eq_refl s.id, shorter)
delete-lt (x ∷ xs) (suc i) s h = let shorter = delete-lt xs i s h in ground (arith, shorter)

oldest_from-get_elem? :
    (b : Session) (items : List Session)
    → (s : Session) × (i : ℕ) × (oldest_from (some b) items ≡ some s)
      × (get_elem? (b ∷ items) i ≡ some s)
unfolding oldest_from
oldest_from-get_elem? b [] = (b, zero, refl, refl)
oldest_from-get_elem? b (x ∷ xs) = elim (Bool-cases (ltb x.created_at b.created_at)) [
  | inl e ↦ let (s, i, o, g) = oldest_from-get_elem? x xs in (s, suc i, rw (oldest_from, e) o, g)
  | inr e ↦
      let (s, i, o, g) = oldest_from-get_elem? b xs in
      let (j, g') = behind b x xs i s g in (s, j, rw (oldest_from, e) o, g')
]
  where
    behind :
        (b x : Session) (xs : List Session) (i : ℕ) (s : Session)
        → get_elem? (b ∷ xs) i ≡ some s
        → (j : ℕ) × (get_elem? (b ∷ x ∷ xs) j ≡ some s)
    behind b x xs zero s g = (zero, g)
    behind b x xs (suc i) s g = (suc (suc i), g)

-- Where there is a session, and each has an id, the oldest is taken out.
evict_oldest-lt :
    (items : List Session)
    → All HasId items
    → 1 ≤ length items
    → length (evict_oldest items) < length items
unfolding evict_oldest oldest_from
evict_oldest-lt [] ids h = omega arith
evict_oldest-lt (x ∷ xs) ids h =
    let (s, i, o, g) = oldest_from-get_elem? x xs in
    let named = All-get_elem? HasId (x ∷ xs) i s ids g in
    rw (evict_oldest, oldest_from, o, named) (delete-lt (x ∷ xs) i s g)

evict_oldest-All : (items : List Session) → All HasId items → All HasId (evict_oldest items)
unfolding evict_oldest delete
evict_oldest-All items ids = elim (Option-cases (oldest_from none items)) [
  | inl e ↦ rw (evict_oldest, e) ids
  | inr (s, e) ↦
      rw (evict_oldest, e)
        (if-both (All HasId) (is_empty s.id) ids
          (All-keep HasId (λ y. not (text_eq y.id s.id)) items ids))
]

-- The loop ends below the maximum, in at most as many rounds as there are sessions.
make_room_lem :
    (rounds max : ℕ) (items : List Session)
    → All HasId items
    → 1 ≤ max
    → length items ≤ rounds
    → (length (make_room rounds max items) < max) × All HasId (make_room rounds max items)
unfolding make_room
make_room_lem zero max items ids h l = (omega (arith, h, l), ids)
make_room_lem (suc rounds) max items ids h l = elim (Bool-cases (leb max (length items))) [
  | inl e ↦
      let some_left : 1 ≤ length items = ground (arith, e, h) in
      let shorter = evict_oldest-lt items ids some_left in
      rw (make_room, e)
        (make_room_lem rounds max (evict_oldest items) (evict_oldest-All items ids) h
          (omega (arith, shorter, l)))
  | inr e ↦ rw (make_room, e) (ground (arith, e), ids)
]

delete-Inv : (id : Text) (s : SessionStore) → Inv s → Inv (record s { items = delete id s.items })
unfolding delete
delete-Inv id s (l, ids, m) =
    let shorter = length-keep-le (λ x. not (text_eq x.id id)) s.items in
    (omega (arith, l, shorter), All-keep HasId (λ x. not (text_eq x.id id)) s.items ids, m)

lookup-Inv : (now : ℕ) (id : Text) (s : SessionStore) → Inv s → Inv (lookup now id s).0
unfolding lookup
lookup-Inv now id s h = elim (Option-cases (find id s.items)) [
  | inl e ↦ rw (lookup, e) (if-both Ok (is_empty id) h h)
  | inr (x, e) ↦
      rw (lookup, e)
        (if-both Ok (is_empty id) h (if-both Ok (ltb now x.expires_at) h (delete-Inv id s h)))
]
  where
    Ok : SessionStore × Option Session → Type 0
    Ok r = Inv r.0

operate-Inv : (o : Operation) (s : SessionStore) → IsDrawn o → Inv s → Inv (operate o s)
unfolding operate create lookup revoke evict_expired delete
operate-Inv (creates now (inl error)) s d h = h
operate-Inv (creates now (inr id)) s d (l, ids, m) =
    let live = keep (λ x. ltb now x.expires_at) s.items in
    let (room, named) =
      make_room_lem (length live) s.max live
        (All-keep HasId (λ x. ltb now x.expires_at) s.items ids) m (omega arith) in
    let kept = make_room (length live) s.max live in
    let shorter = length-keep-le (λ x. not (text_eq x.id id)) kept in
    (omega (arith, room, shorter), (d, All-keep HasId (λ x. not (text_eq x.id id)) kept named), m)
operate-Inv (looks_up now id) s d h = lookup-Inv now id s h
operate-Inv (revokes id) s d h = if-both Inv (is_empty id) h (delete-Inv id s h)

new_session_store-Inv : (ttl max : ℤ) → Inv (new_session_store ttl max)
unfolding new_session_store
new_session_store-Inv ttl max = (ground arith, tt, at_least_one max)
  where
    at_least_one : (max : ℤ) → 1 ≤ (if nonpositive max then default_max_sessions else magnitude max)
    at_least_one max = ground arith

-- After any operations on a new store, whose random ids are not empty, there are no more sessions
-- than the maximum, and each has an id.
pub sessions_bounded :
    (ttl max : ℤ) (os : List Operation)
    → All IsDrawn os
    → Inv (operate_all os (new_session_store ttl max))
unfolding operate_all
sessions_bounded ttl max os d = go os (new_session_store ttl max) d (new_session_store-Inv ttl max)
  where
    go : (os : List Operation) (s : SessionStore) → All IsDrawn os → Inv s → Inv (operate_all os s)
    go [] s d h = h
    go (o ∷ os) s d h = go os (operate o s) d.1 (operate-Inv o s d.0 h)
