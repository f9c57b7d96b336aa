-- ===== src/Connection/Complete.antt =====
-- src/internal/connection/service.go: `candidateOrder` leaves no usable key out.
use blacktemple_kn.Prelude.{
  ℕ, zero, suc, ◌==◌, true, false, Option, some, List, [], ◌∷◌, ◌++◌, any, Text, Bool-cases, inl,
  inr, get_elem?, get_or, text_eq, text_eq_refl, text_eq_cases, All, All-zip, All-get_elem?,
  Distinct, ◌≡◌, refl, sym, ap, ◌∙◌, subst, arith,
}
use mathlib.Core.List.{append_assoc}
use blacktemple_kn.Keys.State.{Key, ConnectionCandidate, LastKnownGood}
use blacktemple_kn.Servers.Select.{Server}
use blacktemple_kn.Connection.Candidates.{
  CandidatePair, Progress, find_server_by_id, find_key, is_vless, pair_id, push, push_lkg,
  push_selected, push_key, push_all, candidate_order,
}
use blacktemple_kn.Connection.Pushes.{Allows, AllowsFound, start-Ok, push_key-Ok, push_all-Ok}

-- The text has no colon, which stands between the ids of a pair.
abbrev pub NoColon : Text → Type 0
NoColon t = All (λ c. (c == b':') ≡ false) t

split : (a c b d : Text) → NoColon a → NoColon c → a ++ b':' ∷ b ≡ c ++ b':' ∷ d → (a ≡ c) × (b ≡ d)
split [] [] b d m n h = (refl, cc)
split [] (y ∷ ys) b d m n h = ground (arith, h, n.0)
split (x ∷ xs) [] b d m n h = ground (arith, h, m.0)
split (x ∷ xs) (y ∷ ys) b d m n h =
    let (e, f) = split xs ys b d m.1 n.1 cc in let same : x ≡ y = cc in (cc, f)

find_server-named :
    (srvs : List Server) (id : Text) (srv : Server)
    → find_server_by_id srvs id ≡ some srv
    → srv.id ≡ id
unfolding find_server_by_id
find_server-named [] id srv e = ground (arith, e)
find_server-named (s ∷ ss) id srv e = elim (text_eq_cases s.id id) [
  | inl (y, same) ↦
      ap (λ (o : Server). o.id) (sym (ap (get_or srv) (rw (find_server_by_id, y) at e))) ∙ same
  | inr n ↦ find_server-named ss id srv (rw (find_server_by_id, n) at e)
]

find_server-same :
    (srvs : List Server) (id : Text) (srv : Server)
    → find_server_by_id srvs id ≡ some srv
    → find_server_by_id srvs srv.id ≡ some srv
find_server-same srvs id srv h =
    subst (λ i. find_server_by_id srvs i ≡ some srv) (sym (find_server-named srvs id srv h)) h

module _ {P : Type 0} where
  -- The pair is among the candidates.
  abbrev pub IsTried : CandidatePair P → List (CandidatePair P) → Type 0
  IsTried p out =
      (before : List (CandidatePair P)) × (behind : List (CandidatePair P)) × (out
        ≡ before ++ p ∷ behind)

  find_key-named : (ks : List (Key P)) (id : Text) (k : Key P) → find_key ks id ≡ some k → k.id ≡ id
  unfolding find_key
  find_key-named [] id k e = ground (arith, e)
  find_key-named (x ∷ xs) id k e = elim (text_eq_cases x.id id) [
    | inl (y, same) ↦ ap (λ (o : Key P). o.id) (sym (ap (get_or k) (rw (find_key, y) at e))) ∙ same
    | inr n ↦ find_key-named xs id k (rw (find_key, n) at e)
  ]

  find_key-same :
      (ks : List (Key P)) (id : Text) (k : Key P)
      → find_key ks id ≡ some k
      → find_key ks k.id ≡ some k
  find_key-same ks id k h = subst (λ i. find_key ks i ≡ some k) (sym (find_key-named ks id k h)) h

  find_key-All :
      (Q : Key P → Type 0) (ks : List (Key P)) (id : Text) (k : Key P)
      → All Q ks
      → find_key ks id ≡ some k
      → Q k
  unfolding find_key
  find_key-All Q [] id k a e = ground (arith, e)
  find_key-All Q (x ∷ xs) id k a e = elim (text_eq_cases x.id id) [
    | inl (y, same) ↦ subst Q (ap (get_or k) (rw (find_key, y) at e)) a.0
    | inr n ↦ find_key-All Q xs id k a.1 (rw (find_key, n) at e)
  ]

  -- Keys with distinct ids are all found by their ids.
  each_found :
      (ks : List (Key P)) → Distinct (λ k. k.id) ks → All (λ k. find_key ks k.id ≡ some k) ks
  unfolding find_key
  each_found [] d = tt
  each_found (x ∷ xs) d = (
    rw (text_eq_refl x.id) refl,
    All-zip (λ y other found. rw other found) xs d.0 (each_found xs d.1),
  )

  module _ (ks : List (Key P)) (srvs : List Server) (k : Key P) (srv : Server) where
    abbrev wanted : CandidatePair P
    wanted = record { key = k; srv = srv }

    -- The key and the server of the pair are those of their ids.
    abbrev IsKnown : CandidatePair P → Type 0
    IsKnown p =
        (find_key ks p.key.id ≡ some p.key)
        × (find_server_by_id srvs p.srv.id ≡ some p.srv)
        × NoColon p.key.id

    known-equal :
        (p : CandidatePair P) → IsKnown wanted → IsKnown p → pair_id wanted ≡ pair_id p → wanted ≡ p
    unfolding pair_id
    known-equal p (found, served, plain) (found', served', plain') e =
        let (same_key, same_srv) = split k.id p.key.id srv.id p.srv.id plain plain' e in
        let key_is : k ≡ p.key = ap (get_or k) (sym found ∙ ap (find_key ks) same_key ∙ found') in
        let srv_is : srv ≡ p.srv =
          ap (get_or srv) (sym served ∙ ap (find_server_by_id srvs) same_srv ∙ served') in
        ap (λ x. record { key = x; srv = srv }) key_is
        ∙ ap (λ x. record { key = p.key; srv = x }) srv_is

    -- If the pair has been seen, it is tried.
    abbrev SeenTried : Progress P → Type 0
    SeenTried g = any (text_eq (pair_id wanted)) g.seen ≡ true → IsTried wanted g.out

    still-IsTried :
        (out : List (CandidatePair P)) (p : CandidatePair P)
        → IsTried wanted out
        → IsTried wanted (out ++ p ∷ [])
    still-IsTried out p (before, behind, e) = (
      before,
      behind ++ p ∷ [],
      ap (λ t. t ++ p ∷ []) e ∙ append_assoc before (wanted ∷ behind) (p ∷ []),
    )

    module _ (whole : IsKnown wanted) where
      push-SeenTried :
          (p : CandidatePair P) (g : Progress P) → IsKnown p → SeenTried g → SeenTried (push p g)
      unfolding push
      push-SeenTried p g known h = elim (Bool-cases (is_vless p)) [
        | inr e ↦ rw (push, e) h
        | inl e ↦ elim (Bool-cases (any (text_eq (pair_id p)) g.seen)) [
          | inl s ↦ rw (push, e, s) h
          | inr s ↦ rw (push, e, s) (λ seen. new seen)
        ]
      ]
        where
          new :
              any (text_eq (pair_id wanted)) (pair_id p ∷ g.seen) ≡ true
              → IsTried wanted (g.out ++ p ∷ [])
          new seen = elim (text_eq_cases (pair_id wanted) (pair_id p)) [
            | inl (e, same) ↦
                (g.out, [], ap (λ q. g.out ++ q ∷ []) (sym (known-equal p whole known same)))
            | inr n ↦ still-IsTried g.out p (h (ground (arith, n, seen)))
          ]

      push_tries :
          (g : Progress P)
          → SeenTried g
          → is_vless wanted ≡ true
          → IsTried wanted (push wanted g).out
      unfolding push
      push_tries g h e = elim (Bool-cases (any (text_eq (pair_id wanted)) g.seen)) [
        | inl s ↦ rw (push, e, s) (h s)
        | inr s ↦ rw (push, e, s) (g.out, [], refl)
      ]

      push-IsTried :
          (p : CandidatePair P) (g : Progress P)
          → IsTried wanted g.out
          → IsTried wanted (push p g).out
      unfolding push
      push-IsTried p g h = elim (Bool-cases (is_vless p)) [
        | inr e ↦ rw (push, e) h
        | inl e ↦ elim (Bool-cases (any (text_eq (pair_id p)) g.seen)) [
          | inl s ↦ rw (push, e, s) h
          | inr s ↦ rw (push, e, s) (still-IsTried g.out p h)
        ]
      ]

      push_all_tries :
          (xs : List (Key P)) (i : ℕ) (g : Progress P)
          → All (Allows IsKnown srvs) xs
          → SeenTried g
          → get_elem? xs i ≡ some k
          → find_server_by_id srvs k.server_id ≡ some srv
          → is_vless wanted ≡ true
          → IsTried wanted (push_all srvs xs g).out
      unfolding push_all push_key
      push_all_tries [] i g may h e f v = ground (arith, e)
      push_all_tries (x ∷ xs) zero g may h e f v =
          let Ok : Progress P → Type 0 = (λ g. IsTried wanted g.out) in
          let here : Ok (push_key srvs k g) = rw (push_key, f) (push_tries g h v) in
          let same : k ≡ x = sym (ap (get_or x) e) in
          push_all-Ok Ok IsKnown (λ p g _. push-IsTried p g) srvs xs (push_key srvs x g) may.1
            (subst (λ y. Ok (push_key srvs y g)) same here)
      push_all_tries (x ∷ xs) (suc i) g may h e f v =
          push_all_tries xs i (push_key srvs x g) may.1
            (push_key-Ok SeenTried IsKnown push-SeenTried srvs x g may.0 h) e f v

  -- Where the keys have distinct ids without a colon, every VLESS key of the list whose server is
  -- there is among the candidates, and with that server.
  pub candidate_order-IsTried :
      (lkg : Option LastKnownGood) (selected : Option ConnectionCandidate) (ks : List (Key P))
      (srvs : List Server) (i : ℕ) (k : Key P) (srv : Server)
      → Distinct (λ x. x.id) ks
      → All (λ x. NoColon x.id) ks
      → get_elem? ks i ≡ some k
      → find_server_by_id srvs k.server_id ≡ some srv
      → is_vless (record { key = k; srv = srv }) ≡ true
      → IsTried (record { key = k; srv = srv }) (candidate_order lkg selected ks srvs)
  unfolding candidate_order
  candidate_order-IsTried lkg selected ks srvs i k srv d plain e f v =
      let empty : Progress P = (record { seen = []; out = [] }) in
      let listed : All (Allows (IsKnown ks srvs k srv) srvs) ks =
        All-zip (λ x found no_colon s g. (found, find_server-same srvs x.server_id s g, no_colon))
          ks (each_found ks d) plain in
      let whole : IsKnown ks srvs k srv (record { key = k; srv = srv }) =
        All-get_elem? (Allows (IsKnown ks srvs k srv) srvs) ks i k listed e srv f in
      let found : AllowsFound (IsKnown ks srvs k srv) ks srvs = λ id sid x s g h. (
        find_key-same ks id x g,
        find_server-same srvs sid s h,
        find_key-All (λ y. NoColon y.id) ks id x plain g,
      ) in
      let next =
        start-Ok (SeenTried ks srvs k srv) (IsKnown ks srvs k srv)
          (push-SeenTried ks srvs k srv whole) ks srvs lkg selected empty found
          (λ seen. ground (arith, seen)) in
      push_all_tries ks srvs k srv whole ks i
        (push_selected ks srvs selected (push_lkg ks srvs lkg empty)) listed next e f v
