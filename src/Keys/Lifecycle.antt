-- ===== src/Keys/Lifecycle.antt =====
-- src/internal/keys/manager.go: sequences of the operations of `State`, and what they keep.
use blacktemple_kn.Prelude.{
  ℤ, pos, negsuc, ℕ, Bool, true, false, List, [], ◌∷◌, Text, ◌≡◌, refl, arith, if-both, ◌==◌,
  Option-cases, inl, inr, get_elem?, length, suc, ◌%◌,
}
use blacktemple_kn.Keys.State.{
  rotate_from, next_position, Key, ConnectionCandidate, LastKnownGood, State, Result, new_state,
  set_keys, candidate, select_candidate, commit_good, rollback, replaced, replace_key, rotate_key,
  select_at, is_active,
}

pub data Operation (P : Type 0) : Type 0 where
  sets_keys : List (Key P) → Operation P
  selects : Text → Text → Operation P
  commits : ℕ → Operation P
  rolls_back : Operation P
  replaces : Text → Key P → Operation P
  rotates : Operation P

-- An active candidate has the id of its parts.
unfoldable pub HasId : Bool → ConnectionCandidate → Text → Type 0
HasId false c profile = Unit
HasId true c profile = c ≡ candidate profile c.key_id c.server_id

unfoldable pub IsOfProfile : Bool → LastKnownGood → Text → Type 0
IsOfProfile false good profile = Unit
IsOfProfile true good profile = good.profile_id ≡ profile

module _ {P : Type 0} where
  unfoldable pub operate : Operation P → State P → State P
  operate (sets_keys ks) s = set_keys ks s
  operate (selects k server) s = (select_candidate k server s).0
  operate (commits now) s = (commit_good now s).0
  operate rolls_back s = (rollback s).0
  operate (replaces old next) s = (replace_key old next s).0
  operate rotates s = (rotate_key s).0

  unfoldable pub operate_all : List (Operation P) → State P → State P
  operate_all [] s = s
  operate_all (o ∷ os) s = operate_all os (operate o s)

  abbrev pub Inv : Text → State P → Type 0
  Inv profile s =
      (s.profile_id ≡ profile)
      × HasId s.has_active s.active profile
      × IsOfProfile s.has_lkg s.lkg profile

  select_candidate-Inv :
      (profile key server : Text) (s : State P)
      → Inv profile s
      → Inv profile (select_candidate key server s).0
  unfolding select_candidate HasId candidate
  select_candidate-Inv profile key server s h = ground (arith, h)

  select_at-Inv :
      (profile : Text) (i : ℕ) (s : State P) → Inv profile s → Inv profile (select_at i s).0
  unfolding select_at
  select_at-Inv profile i s h = elim (Option-cases (get_elem? s.keys i)) [
    | inl e ↦ rw (select_at, e) h
    | inr (k, e) ↦ rw (select_at, e) (select_candidate-Inv profile k.id k.server_id s h)
  ]

  rotate_from-Inv :
      (profile : Text) (at : ℤ) (s : State P) → Inv profile s → Inv profile (rotate_from at s).0
  unfolding rotate_from
  rotate_from-Inv profile (negsuc r) s h = h
  rotate_from-Inv profile (pos first) s h =
      let second = suc first % length s.keys in
      if-both (λ (r : State P × Result ConnectionCandidate). Inv profile r.0) (is_active first s)
        (select_at-Inv profile second (record s { rotate_at = pos second }) h)
        (select_at-Inv profile first (record s { rotate_at = pos first }) h)

  operate-Inv :
      (profile : Text) (o : Operation P) (s : State P) → Inv profile s → Inv profile (operate o s)
  unfolding operate set_keys commit_good rollback replace_key rotate_key HasId IsOfProfile candidate
  operate-Inv profile (sets_keys ks) s h = h
  operate-Inv profile (selects k server) s h = select_candidate-Inv profile k server s h
  operate-Inv profile (commits now) s h = ground (arith, h)
  operate-Inv profile rolls_back s h = ground (arith, h)
  operate-Inv profile (replaces old next) s h =
      select_candidate-Inv profile next.id next.server_id
        (record s { keys = replaced old next s.keys }) h
  operate-Inv profile rotates s h =
      let Ok : State P × Result ConnectionCandidate → Type 0 = (λ r. Inv profile r.0) in
      if-both Ok (length s.keys == 0) h (
        if-both Ok (length s.keys == 1) (select_at-Inv profile 0 s h)
          (rotate_from-Inv profile (next_position s.rotate_at (length s.keys)) s h))

  -- After any operations on a new state the profile is the one it was made for, an active candidate
  -- is of that profile and has the id of its parts, and a last known good one is of that profile.
  pub operate_all-Inv :
      (profile : Text) (ks : List (Key P)) (os : List (Operation P))
      → Inv profile (operate_all os (new_state profile ks))
  unfolding operate_all new_state HasId IsOfProfile
  operate_all-Inv profile ks os = go os (new_state profile ks) (refl, tt, tt)
    where
      go : (os : List (Operation P)) (s : State P) → Inv profile s → Inv profile (operate_all os s)
      go [] s h = h
      go (o ∷ os) s h = go os (operate o s) (operate-Inv profile o s h)
