-- ===== src/Servers/Rotation.antt =====
-- src/internal/servers/select.go: which server `Select` returns, and where a rotation leads.
use blacktemple_kn.Prelude.{
  ℕ, true, false, List, [], ◌∷◌, Text, ◌≡◌, ◌≤◌, ◌<◌, refl, arith, ap, sym, ◌∙◌, Bool-cases,
  if-both, ◌+◌, ◌-◌, inl, inr, ◌⊎◌, get_elem?, length, zero, suc, ◌%◌, some, Distinct,
  All-get_elem?, All, text_eq, text_eq_refl, get_elem?-some_of_lt, get_elem?-lt, is_empty,
}
use native.Mathlib.Nat.{mod-eq_of_lt, suc-mod, add-mod_right, mod-add-mod}
use blacktemple_kn.Servers.Select.{
  Mode, auto, manual, failover, rotate, Server, Choice, chosen, err_not_found, err_empty, panics,
  by_id, at, next_from, next_after, or_first, select_in, select,
}

-- The result of a choice is a server of the list.
abbrev pub IsFrom : List Server → Choice → Type 0
IsFrom list c = (s : Server) × (i : ℕ) × (c ≡ chosen s) × (get_elem? list i ≡ some s)

at-IsFrom : (list : List Server) (i : ℕ) → i < length list → IsFrom list (at list i)
unfolding at
at-IsFrom list i h = let (s, e) = get_elem?-some_of_lt list i h in (s, i, rw (at, e) refl, e)

by_id-cases :
    (list : List Server) (id : Text) → IsFrom list (by_id list id) ⊎ (by_id list id ≡ err_not_found)
unfolding by_id
by_id-cases [] id = inr refl
by_id-cases (s ∷ ss) id = elim (Bool-cases (text_eq s.id id)) [
  | inl e ↦ inl (s, zero, rw (by_id, e) refl, refl)
  | inr e ↦ elim (by_id-cases ss id) [
    | inl (t, i, c, g) ↦ inl (t, suc i, rw (by_id, e) c, g)
    | inr n ↦ inr (rw (by_id, e) n)
  ]
]

next_from-IsFrom :
    (list : List Server) (id : Text) (i : ℕ) (rest : List Server)
    → 1 ≤ length list
    → IsFrom list (next_from list id i rest)
unfolding next_from
next_from-IsFrom list id i [] h = at-IsFrom list 0 h
next_from-IsFrom list id i (s ∷ rest) h = elim (Bool-cases (text_eq s.id id)) [
  | inl e ↦ rw (next_from, e) (at-IsFrom list (suc i % length list) (ground arith))
  | inr e ↦ rw (next_from, e) (next_from-IsFrom list id (suc i) rest h)
]

next_after-IsFrom :
    (list : List Server) (id : Text) → 1 ≤ length list → IsFrom list (next_after list id)
unfolding next_after
next_after-IsFrom list id h =
    if-both (IsFrom list) (is_empty id) (at-IsFrom list 0 h) (next_from-IsFrom list id 0 list h)

-- Select never leaves the list: on a list that is not empty AUTO, FAILOVER and ROTATE return a
-- server of it, and MANUAL does so or reports that the server is not found.
pub select-IsFrom :
    (mode : Mode) (s : Server) (ss : List Server) (manual_id previous : Text)
    → IsFrom (s ∷ ss) (select mode (s ∷ ss) manual_id previous)
      ⊎ ((mode ≡ manual) × (select mode (s ∷ ss) manual_id previous ≡ err_not_found))
unfolding select select_in or_first
select-IsFrom auto s ss manual_id previous =
    let list = s ∷ ss in
    inl (
      if-both (IsFrom list) (is_empty previous) (at-IsFrom list 0 (omega arith))
        (elim (by_id-cases list previous) [
          | inl (t, i, c, g) ↦ (t, i, rw (c, or_first) refl, g)
          | inr n ↦ rw (n, or_first) (at-IsFrom list 0 (omega arith))
        ]))
select-IsFrom failover s ss manual_id previous =
    inl (next_after-IsFrom (s ∷ ss) previous (omega arith))
select-IsFrom rotate s ss manual_id previous =
    inl (next_after-IsFrom (s ∷ ss) previous (omega arith))
select-IsFrom manual s ss manual_id previous =
    if-both (λ c. IsFrom (s ∷ ss) c ⊎ ((manual ≡ manual) × (c ≡ err_not_found)))
      (is_empty manual_id) (inr (refl, refl))
      (elim (by_id-cases (s ∷ ss) manual_id) [ inl f ↦ inl f | inr n ↦ inr (refl, n) ])

-- The ids are distinct, and none is empty.
abbrev pub IsCatalog : List Server → Type 0
IsCatalog list = Distinct (λ s. s.id) list × All (λ s. is_empty s.id ≡ false) list

next_from_lem :
    (list rest : List Server) (j i : ℕ) (s : Server)
    → Distinct (λ s. s.id) rest
    → get_elem? rest i ≡ some s
    → next_from list s.id j rest ≡ at list (suc (j + i) % length list)
unfolding next_from
next_from_lem list [] j i s d e = ground arith
next_from_lem list (x ∷ rest) j zero s d e =
    let first : at list (suc j % length list) ≡ at list (suc (j + 0) % length list) =
      ap (λ p. at list (p % length list)) (omega arith) in
    let same : text_eq x.id s.id ≡ true = ground (arith, e, text_eq_refl s.id) in
    rw (next_from, same) first
next_from_lem list (x ∷ rest) j (suc i) s d e =
    let differ = All-get_elem? (λ y. text_eq x.id y.id ≡ false) rest i s d.0 e in
    let shift : at list (suc (suc j + i) % length list) ≡ at list (suc (j + suc i) % length list) =
      ap (λ p. at list (p % length list)) (omega arith) in
    rw (next_from, differ) (next_from_lem list rest (suc j) i s d.1 e ∙ shift)

-- ROTATE, after the server at the position `i` of a list of distinct ids, chooses the next position.
select-rotate :
    (list : List Server) (i : ℕ) (s : Server)
    → IsCatalog list
    → get_elem? list i ≡ some s
    → (manual_id : Text) → select rotate list manual_id s.id ≡ at list (suc i % length list)
unfolding select select_in next_after
select-rotate [] i s c e manual_id = ground arith
select-rotate (x ∷ xs) i s c e manual_id =
    let full = All-get_elem? (λ s. is_empty s.id ≡ false) (x ∷ xs) i s c.1 e in
    let unshift : at (x ∷ xs) (suc (0 + i) % length (x ∷ xs))
        ≡ at (x ∷ xs) (suc i % length (x ∷ xs)) =
      ap (λ p. at (x ∷ xs) (p % length (x ∷ xs))) (omega arith) in
    rw (next_after, full) (next_from_lem (x ∷ xs) (x ∷ xs) 0 i s c.0 e ∙ unshift)

-- `k` rotations, each from the server that the one before chose.
unfoldable pub rotations : List Server → ℕ → Server → Choice
unfolding select
rotations list zero s = chosen s
rotations list (suc k) s = elim (rotations list k s) [
  | chosen t ↦ select rotate list [] t.id
  | err_not_found ↦ err_not_found
  | err_empty ↦ err_empty
  | panics ↦ panics
]

at-chosen :
    (list : List Server) (i : ℕ) (s : Server) → get_elem? list i ≡ some s → at list i ≡ chosen s
unfolding at
at-chosen list i s e = rw (at, e) refl

rotations_lem :
    (list : List Server) (i k : ℕ) (s : Server)
    → IsCatalog list
    → get_elem? list i ≡ some s
    → i < length list
    → rotations list k s ≡ at list ((k + i) % length list)
unfolding rotations
rotations_lem list i zero s c e h =
    let here : i ≡ (0 + i) % length list =
      sym (ap (λ p. p % length list) (omega arith) ∙ mod-eq_of_lt h) in
    sym (at-chosen list i s e) ∙ ap (at list) here
rotations_lem list i (suc k) s c e h =
    let at_k = (k + i) % length list in
    let (t, et) = get_elem?-some_of_lt list at_k (ground arith) in
    let one = select-rotate list at_k t c et [] in
    let here = rotations_lem list i k s c e h ∙ at-chosen list at_k t et in
    let step : suc at_k % length list ≡ (suc k + i) % length list =
      sym (suc-mod (k + i) (length list)) ∙ ap (λ p. p % length list) (omega arith) in
    rw (rotations, here, one) (ap (at list) step)

-- On a list of distinct ids, none empty, fewer rotations than there are servers lead from any server
-- to any other.
pub rotations_reach :
    (list : List Server) (i j : ℕ) (s t : Server)
    → IsCatalog list
    → get_elem? list i ≡ some s
    → get_elem? list j ≡ some t
    → (k : ℕ) × (k < length list) × (rotations list k s ≡ chosen t)
rotations_reach list i j s t c es et =
    let n = length list in
    let hi = get_elem?-lt list i s es in
    let hj = get_elem?-lt list j t et in
    let k = ((j + n) - i) % n in
    let back : (k + i) % n ≡ j =
      mod-add-mod ((j + n) - i) n i
      ∙ (ap (λ p. p % n) (omega arith) ∙ (add-mod_right j n ∙ mod-eq_of_lt hj)) in
    (
      k,
      ground arith,
      rotations_lem list i k s c es hi ∙ (ap (at list) back ∙ at-chosen list j t et),
    )
