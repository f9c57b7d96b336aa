-- ===== src/Auth/Lifetime.antt =====
-- src/internal/auth/session.go: how long a session is found.
use blacktemple_kn.Prelude.{
  ℕ, zero, suc, ◌+◌, ltb, leb, Bool, false, not, if◌then◌else◌, Option, none, some, List, [], ◌∷◌,
  length, keep, All, Text, text_eq, text_eq_refl, is_empty, inl, inr, ◌≡◌, refl, arith, Bool-cases,
  Option-cases, if-both,
}
use blacktemple_kn.Auth.Sessions.{
  Session, SessionStore, delete, find, evict_expired, evict_oldest, oldest_from, make_room, create,
  lookup, revoke, Operation, creates, looks_up, revokes, operate, operate_all,
}

lookup_found :
    (later : ℕ) (id : Text) (x : Session) (t : SessionStore)
    → is_empty id ≡ false
    → find id t.items ≡ some x
    → (lookup later id t).1 ≡ (if ltb later x.expires_at then some x else none)
unfolding lookup
lookup_found later id x t h e = elim (Bool-cases (ltb later x.expires_at)) [
  | inl b ↦ rw (lookup, h, e, b) refl
  | inr b ↦ rw (lookup, h, e, b) refl
]

find_first : (x : Session) (xs : List Session) → find x.id (x ∷ xs) ≡ some x
unfolding find
find_first x xs = rw (find, text_eq_refl x.id) refl

-- A session that is created is found until its time to live is over, and not from then on.
pub create-lookup :
    (now later : ℕ) (id : Text) (s : SessionStore)
    → is_empty id ≡ false
    → (lookup later id (create now (inr id) s).0).1 ≡ (
        if ltb later (now + s.ttl)
        then some (record { id = id; created_at = now; expires_at = now + s.ttl })
        else none)
unfolding create
create-lookup now later id s h =
    let x : Session = (record { id = id; created_at = now; expires_at = now + s.ttl }) in
    lookup_found later id x (create now (inr id) s).0 h (find_first x _)

find-keep :
    (id : Text) (p : Session → Bool) (items : List Session)
    → find id items ≡ none
    → find id (keep p items) ≡ none
unfolding find
find-keep id p [] h = refl
find-keep id p (x ∷ xs) h = elim (Bool-cases (text_eq x.id id)) [
  | inl e ↦ ground (arith, e, h)
  | inr e ↦
      let rest = find-keep id p xs (ground (arith, e, h)) in
      elim (Bool-cases (p x)) [ inl k ↦ rw (k, find, e) rest | inr k ↦ rw k rest ]
]

find-delete : (id : Text) (items : List Session) → find id (delete id items) ≡ none
unfolding find delete
find-delete id [] = refl
find-delete id (x ∷ xs) = elim (Bool-cases (text_eq x.id id)) [
  | inl e ↦ rw e (find-delete id xs)
  | inr e ↦ rw (e, find, e) (find-delete id xs)
]

find-evict_oldest :
    (id : Text) (items : List Session) → find id items ≡ none → find id (evict_oldest items) ≡ none
unfolding evict_oldest delete
find-evict_oldest id items h = elim (Option-cases (oldest_from none items)) [
  | inl e ↦ rw (evict_oldest, e) h
  | inr (x, e) ↦
      rw (evict_oldest, e)
        (if-both (λ l. find id l ≡ none) (is_empty x.id) h
          (find-keep id (λ y. not (text_eq y.id x.id)) items h))
]

find-make_room :
    (id : Text) (rounds max : ℕ) (items : List Session)
    → find id items ≡ none
    → find id (make_room rounds max items) ≡ none
unfolding make_room
find-make_room id zero max items h = h
find-make_room id (suc rounds) max items h =
    if-both (λ l. find id l ≡ none) (leb max (length items))
      (find-make_room id rounds max (evict_oldest items) (find-evict_oldest id items h)) h

-- The operation does not create a session of the id.
abbrev pub IsOther : Text → Operation → Type 0
IsOther id (creates now (inr new)) = text_eq new id ≡ false
IsOther id _ = Unit

lookup-none :
    (id wanted : Text) (now : ℕ) (s : SessionStore)
    → find id s.items ≡ none
    → find id (lookup now wanted s).0.items ≡ none
unfolding lookup delete
lookup-none id wanted now s h = elim (Option-cases (find wanted s.items)) [
  | inl e ↦ rw (lookup, e) (if-both Ok (is_empty wanted) h h)
  | inr (x, e) ↦
      rw (lookup, e)
        (if-both Ok (is_empty wanted) h (
          if-both Ok (ltb now x.expires_at) h
            (find-keep id (λ y. not (text_eq y.id wanted)) s.items h)))
]
  where
    Ok : SessionStore × Option Session → Type 0
    Ok r = find id r.0.items ≡ none

operate-none :
    (id : Text) (o : Operation) (s : SessionStore)
    → IsOther id o
    → find id s.items ≡ none
    → find id (operate o s).items ≡ none
unfolding operate create lookup revoke evict_expired delete
operate-none id (creates now (inl error)) s other h = h
operate-none id (creates now (inr new)) s other h =
    let live = keep (λ x. ltb now x.expires_at) s.items in
    let room =
      find-make_room id (length live) s.max live
        (find-keep id (λ x. ltb now x.expires_at) s.items h) in
    rw (find, other)
      (find-keep id (λ x. not (text_eq x.id new)) (make_room (length live) s.max live) room)
operate-none id (looks_up now wanted) s other h = lookup-none id wanted now s h
operate-none id (revokes gone) s other h =
    if-both (λ (t : SessionStore). find id t.items ≡ none) (is_empty gone) h
      (find-keep id (λ x. not (text_eq x.id gone)) s.items h)

lookup_missing :
    (now : ℕ) (id : Text) (t : SessionStore) → find id t.items ≡ none → (lookup now id t).1 ≡ none
unfolding lookup
lookup_missing now id t e =
    let Ok : SessionStore × Option Session → Type 0 = (λ r. r.1 ≡ none) in
    rw (lookup, e) (if-both Ok (is_empty id) refl refl)

revoke-none :
    (id : Text) (s : SessionStore) → is_empty id ≡ false → find id (revoke id s).items ≡ none
unfolding revoke
revoke-none id s h = rw (revoke, h) (find-delete id s.items)

-- A session that is revoked is not found after any operations that create none of its id.
pub revoked_stays_out :
    (id : Text) (s : SessionStore) (os : List Operation) (now : ℕ)
    → is_empty id ≡ false
    → All (IsOther id) os
    → (lookup now id (operate_all os (revoke id s))).1 ≡ none
unfolding operate_all
revoked_stays_out id s os now h other =
    lookup_missing now id (operate_all os (revoke id s))
      (go os (revoke id s) other (revoke-none id s h))
  where
    go :
        (os : List Operation) (t : SessionStore)
        → All (IsOther id) os
        → find id t.items ≡ none
        → find id (operate_all os t).items ≡ none
    go [] t other e = e
    go (o ∷ os) t other e = go os (operate o t) other.1 (operate-none id o t other.0 e)
