-- ===== src/Keys/Rotation.antt =====
-- src/internal/keys/manager.go: which keys `RotateKey` and `ReplaceKey` choose.
use blacktemple_kn.Prelude.{
  pos, ℕ, Bool, true, false, List, [], ◌∷◌, Text, ◌≡◌, ◌≢◌, ◌⊎◌, ◌≤◌, ◌<◌, refl, arith, ap, sym,
  ◌∙◌, Bool-cases, inl, inr, if◌then◌else◌, get_elem?, length, zero, suc, ◌%◌, some, Distinct,
  Distinct-get_elem?, All-get_elem?, text_eq, text_eq_refl, text_eq_sound, get_elem?-some_of_lt,
  is_empty,
}
use native.Mathlib.Nat.{mod-eq_of_lt, mod_self}
use blacktemple_kn.Keys.State.{
  rotate_from, next_position, Key, State, ok, candidate, ConnectionCandidate, select_candidate,
  replaced, replace_key, rotate_key, select_at, is_active, find_key,
}

next_lt : (n i : ℕ) → 2 ≤ n → suc i % n < n
next_lt n i h = ground arith

next_ne : (n i : ℕ) → 2 ≤ n → i < n → suc i % n ≢ i
next_ne n i h l = elim (lt_or_eq n i l) [
  | inl e ↦ rw (mod-eq_of_lt e) (λ same. omega arith)
  | inr e ↦ rw (e, mod_self n) (λ same. omega arith)
]
  where
    lt_or_eq : (n i : ℕ) → i < n → (suc i < n) ⊎ (suc i ≡ n)
    lt_or_eq n i h = omega arith

-- The key ids are distinct.
abbrev pub DistinctKeys : {P : Type 0} → List (Key P) → Type 0
DistinctKeys = Distinct (λ k. k.id)

module _ {P : Type 0} where
  find_key-get_elem? :
      (ks : List (Key P)) (i : ℕ) (k : Key P)
      → DistinctKeys ks
      → get_elem? ks i ≡ some k
      → find_key ks k.id ≡ some k
  unfolding find_key
  find_key-get_elem? [] i k d e = ground arith
  find_key-get_elem? (x ∷ ks) zero k d e = ground (arith, e, text_eq_refl k.id)
  find_key-get_elem? (x ∷ ks) (suc i) k d e =
      let differ = All-get_elem? (λ y. text_eq x.id y.id ≡ false) ks i k d.0 e in
      rw (find_key, differ) (find_key-get_elem? ks i k d.1 e)

  -- The candidate of a key.
  abbrev pub candidate_of : State P → Key P → ConnectionCandidate
  candidate_of s k = candidate s.profile_id k.id k.server_id

  select_candidate_lem :
      (k : Key P) (s : State P)
      → find_key s.keys k.id ≡ some k
      → select_candidate k.id k.server_id s
        ≡ (record s { active = candidate_of s k; has_active = true }, ok (candidate_of s k))
  unfolding select_candidate
  select_candidate_lem k s e = rw (select_candidate, e, same_server k) refl
    where
      same_server :
          (k : Key P) → (if is_empty k.server_id then k.server_id else k.server_id) ≡ k.server_id
      same_server k = ground arith

  select_at_lem :
      (i : ℕ) (s : State P) (k : Key P)
      → DistinctKeys s.keys
      → get_elem? s.keys i ≡ some k
      → select_at i s
        ≡ (record s { active = candidate_of s k; has_active = true }, ok (candidate_of s k))
  unfolding select_at
  select_at_lem i s k d e =
      rw (select_at, e) (select_candidate_lem k s (find_key-get_elem? s.keys i k d e))

  replaced_at :
      (old : Text) (next : Key P) (ks : List (Key P))
      → (i : ℕ) × (get_elem? (replaced old next ks) i ≡ some next)
  unfolding replaced
  replaced_at old next [] = (zero, refl)
  replaced_at old next (k ∷ ks) = elim (Bool-cases (text_eq k.id old)) [
    | inl e ↦ (zero, rw (replaced, e) refl)
    | inr e ↦ let (i, found) = replaced_at old next ks in (suc i, rw (replaced, e) found)
  ]

  not_active :
      (i : ℕ) (s : State P) (k : Key P)
      → get_elem? s.keys i ≡ some k
      → s.has_active ≡ true
      → is_active i s ≡ false
      → k.id ≢ s.active.key_id
  unfolding is_active
  not_active i s k e h n same = ground (arith, e, h, n, same, text_eq_refl s.active.key_id)

  is_active_id :
      (i : ℕ) (s : State P) (k : Key P)
      → get_elem? s.keys i ≡ some k
      → is_active i s ≡ true
      → k.id ≡ s.active.key_id
  unfolding is_active
  is_active_id i s k e a = ground (arith, e, a, text_eq_sound k.id s.active.key_id)

  -- `RotateKey` where there are at least two keys.
  rotate_key_lem :
      (s : State P) (r : ℕ) (b : Bool)
      → s.rotate_at ≡ pos r
      → 2 ≤ length s.keys
      → let first = suc r % length s.keys in
        is_active first s ≡ b
        → let i = (if b then suc first % length s.keys else first) in
          rotate_key s ≡ select_at i (record s { rotate_at = pos i })
  unfolding rotate_key next_position
  rotate_key_lem s r b p two e =
      more_keys two ∙ ap (λ at. rotate_from (next_position at (length s.keys)) s) p ∙ from_first b e
    where
      more_keys :
          2 ≤ length s.keys
          → rotate_key s ≡ rotate_from (next_position s.rotate_at (length s.keys)) s
      more_keys two = ground arith

      from_first :
          (b : Bool)
          → let first = suc r % length s.keys in
            is_active first s ≡ b
            → let i = (if b then suc first % length s.keys else first) in
              rotate_from (pos first) s ≡ select_at i (record s { rotate_at = pos i })
      from_first true e = rw (rotate_from, e) refl
      from_first false e = rw (rotate_from, e) refl

  -- A key of the list is made the active candidate, and it satisfies `Good`.
  abbrev pub Chooses : State P → (Key P → Type 0) → Type 0
  Chooses s Good =
      (k : Key P) × (i : ℕ) × (get_elem? s.keys i ≡ some k)
      × Good k
      × ((rotate_key s).1 ≡ ok (candidate_of s k))
      × ((rotate_key s).0.active ≡ candidate_of s k)

  chosen_at :
      (s : State P) (i : ℕ) (k : Key P) (Good : Key P → Type 0)
      → DistinctKeys s.keys
      → get_elem? s.keys i ≡ some k
      → Good k
      → rotate_key s ≡ select_at i (record s { rotate_at = pos i })
      → Chooses s Good
  chosen_at s i k Good d e good r =
      let whole = r ∙ select_at_lem i (record s { rotate_at = pos i }) k d e in
      (k, i, e, good, ap (λ x. x.1) whole, ap (λ x. x.0.active) whole)

  -- With at least two keys, whose ids are distinct, a position that is not negative and an active
  -- candidate, RotateKey succeeds and makes active a key of the list that is not the active one.
  pub rotate_key-skips_active :
      (s : State P) (r : ℕ)
      → s.rotate_at ≡ pos r
      → DistinctKeys s.keys
      → 2 ≤ length s.keys
      → s.has_active ≡ true
      → Chooses s (λ k. k.id ≢ s.active.key_id)
  rotate_key-skips_active s r p d two h =
      let n = length s.keys in
      let first = suc r % n in
      let first_lt = next_lt n r two in
      let (a, ea) = get_elem?-some_of_lt s.keys first first_lt in
      let (b, eb) = get_elem?-some_of_lt s.keys (suc first % n) (next_lt n first two) in
      elim (Bool-cases (is_active first s)) [
        | inl e ↦
            let differ =
              Distinct-get_elem? (λ k. k.id) s.keys (suc first % n) first b a d eb ea
                (next_ne n first two first_lt) in
            chosen_at s (suc first % n) b _ d eb
              (λ same. differ (same ∙ sym (is_active_id first s a ea e)))
              (rotate_key_lem s r true p two e)
        | inr e ↦
            chosen_at s first a _ d ea (not_active first s a ea h e)
              (rotate_key_lem s r false p two e)
      ]

  -- ReplaceKey always succeeds: with key ids that are distinct after it, it makes the new key active,
  -- and the new key stands in the list.
  pub replace_key_lem :
      (s : State P) (old : Text) (next : Key P)
      → DistinctKeys (replaced old next s.keys)
      → ((replace_key old next s).1 ≡ ok (candidate_of s next))
        × (find_key (replace_key old next s).0.keys next.id ≡ some next)
  unfolding replace_key
  replace_key_lem s old next d =
      let (i, e) = replaced_at old next s.keys in
      let found = find_key-get_elem? (replaced old next s.keys) i next d e in
      let whole = select_candidate_lem next (record s { keys = replaced old next s.keys }) found in
      (ap (λ x. x.1) whole, ap (λ x. find_key x.0.keys next.id) whole ∙ found)
