-- ===== src/Keys/Rollback.antt =====
-- src/internal/keys: what `Rollback` brings back (manager.go), and the snapshot of a lifecycle
-- (snapshot.go).
use blacktemple_kn.Prelude.{
  ℤ, pos, negsuc, ℕ, Bool, true, false, List, [], ◌∷◌, Text, ◌≡◌, refl, arith, ap, sym, ◌∙◌,
  Bool-cases, if-both, ◌==◌, Option-cases, inl, inr, get_elem?, length, map, suc, ◌%◌, any, subst,
}
use blacktemple_kn.Keys.State.{
  rotate_from, next_position, Key, State, Result, ok, new_state, candidate, select_candidate,
  commit_good, rollback, replaced, replace_key, rotate_key, select_at, is_active, export,
  import_state, copy_key, set_keys, LastKnownGood,
}
use blacktemple_kn.Keys.Lifecycle.{
  Operation, sets_keys, selects, commits, rolls_back, replaces, rotates, operate, operate_all,
  operate_all-Inv, Inv, HasId,
}

module _ {P : Type 0} where
  abbrev pub is_commit : Operation P → Bool
  is_commit (commits now) = true
  is_commit _ = false

  -- The same last known good candidate.
  abbrev SameGood : State P → State P → Type 0
  SameGood s t = (t.lkg ≡ s.lkg) × (t.has_lkg ≡ s.has_lkg)

  select_candidate-SameGood :
      (key server : Text) (s : State P) → SameGood s (select_candidate key server s).0
  unfolding select_candidate
  select_candidate-SameGood key server s = ground arith

  select_at-SameGood : (i : ℕ) (s : State P) → SameGood s (select_at i s).0
  unfolding select_at
  select_at-SameGood i s = elim (Option-cases (get_elem? s.keys i)) [
    | inl e ↦ rw (select_at, e) (refl, refl)
    | inr (k, e) ↦ rw (select_at, e) (select_candidate-SameGood k.id k.server_id s)
  ]

  rotate_from-SameGood : (at : ℤ) (s : State P) → SameGood s (rotate_from at s).0
  unfolding rotate_from
  rotate_from-SameGood (negsuc r) s = (refl, refl)
  rotate_from-SameGood (pos first) s =
      let second = suc first % length s.keys in
      if-both (λ (r : State P × Result _). SameGood s r.0) (is_active first s)
        (select_at-SameGood second (record s { rotate_at = pos second }))
        (select_at-SameGood first (record s { rotate_at = pos first }))

  operate-SameGood :
      (o : Operation P) (s : State P) → is_commit o ≡ false → SameGood s (operate o s)
  unfolding operate set_keys commit_good rollback replace_key rotate_key
  operate-SameGood (sets_keys ks) s h = (refl, refl)
  operate-SameGood (selects k server) s h = select_candidate-SameGood k server s
  operate-SameGood (commits now) s h = ground arith
  operate-SameGood rolls_back s h = ground arith
  operate-SameGood (replaces old next) s h =
      select_candidate-SameGood next.id next.server_id
        (record s { keys = replaced old next s.keys })
  operate-SameGood rotates s h =
      let Ok : State P × Result _ → Type 0 = (λ r. SameGood s r.0) in
      if-both Ok (length s.keys == 0) (refl, refl)
        (if-both Ok (length s.keys == 1) (select_at-SameGood 0 s)
          (rotate_from-SameGood (next_position s.rotate_at (length s.keys)) s))

  operate_all-SameGood :
      (os : List (Operation P)) (s : State P)
      → any is_commit os ≡ false
      → SameGood s (operate_all os s)
  unfolding operate_all
  operate_all-SameGood [] s h = (refl, refl)
  operate_all-SameGood (o ∷ os) s h = elim (Bool-cases (is_commit o)) [
    | inl e ↦ ground (arith, e, h)
    | inr e ↦
        let one = operate-SameGood o s e in
        let rest = operate_all-SameGood os (operate o s) (ground (arith, e, h)) in
        (rest.0 ∙ one.0, rest.1 ∙ one.1)
  ]

  rollback_lem :
      (t : State P) (g : LastKnownGood)
      → t.has_lkg ≡ true
      → t.lkg ≡ g
      → let c = candidate g.profile_id g.key_id g.server_id in
        rollback t ≡ (record t { active = c; has_active = true }, ok c)
  unfolding rollback
  rollback_lem t g h e = rw (rollback, h, e) refl

  commit_good_lem :
      (now : ℕ) (s : State P)
      → s.has_active ≡ true
      → (commit_good now s).0 ≡ record s {
        lkg = record {
          profile_id = s.active.profile_id;
          key_id = s.active.key_id;
          server_id = s.active.server_id;
          saved_at = now;
        };
        has_lkg = true;
      }
  unfolding commit_good
  commit_good_lem now s h = rw (commit_good, h) refl

  candidate_of_active :
      (profile : Text) (s : State P)
      → Inv profile s
      → s.has_active ≡ true
      → candidate s.active.profile_id s.active.key_id s.active.server_id ≡ s.active
  unfolding HasId candidate
  candidate_of_active profile s inv h =
      let whole = subst (λ b. HasId b s.active profile) h inv.1 in
      ap (λ p. candidate p s.active.key_id s.active.server_id) (ap (λ x. x.profile_id) whole)
      ∙ sym whole

  -- Where a candidate is active after some operations on a new state and is committed as good, then
  -- after any operations with no other commit Rollback makes just this candidate active again.
  pub rollback-restores :
      (profile : Text) (ks : List (Key P)) (before after : List (Operation P)) (now : ℕ)
      (s t : State P)
      → operate_all before (new_state profile ks) ≡ s
      → s.has_active ≡ true
      → any is_commit after ≡ false
      → operate_all after (commit_good now s).0 ≡ t
      → rollback t ≡ (record t { active = s.active; has_active = true }, ok s.active)
  rollback-restores profile ks before after now s t e h none_after e' =
      let inv = subst (Inv profile) e (operate_all-Inv profile ks before) in
      let same = operate_all-SameGood after (commit_good now s).0 none_after in
      let kept = subst (SameGood (commit_good now s).0) e' same in
      let good = commit_good_lem now s h in
      let back =
        rollback_lem t _ (kept.1 ∙ ap (λ x. x.has_lkg) good) (kept.0 ∙ ap (λ x. x.lkg) good) in
      subst (λ c. rollback t ≡ (record t { active = c; has_active = true }, ok c))
        (candidate_of_active profile s inv h) back

  map-copy_key : (ks : List (Key P)) → map copy_key ks ≡ ks
  unfolding copy_key
  map-copy_key [] = refl
  map-copy_key (k ∷ ks) = ap (λ r. k ∷ r) (map-copy_key ks)

  -- A lifecycle that is exported and imported again is the same.
  pub import_state-export : (s : State P) → import_state (export s) ≡ s
  unfolding import_state export
  import_state-export s = ap (λ ks. record s { keys = ks }) (map-copy_key s.keys)
