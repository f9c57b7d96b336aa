-- ===== src/Connection/Order.antt =====
-- src/internal/connection/service.go: what `candidateOrder` promises.
use blacktemple_kn.Prelude.{
  true, false, Option, some, List, [], ◌∷◌, ◌++◌, any, Text, Bool-cases, inl, inr, text_eq,
  text_eq_refl, text_eq_cases, All, All-append, Distinct, ◌≡◌, refl, ap, subst, arith,
}
use blacktemple_kn.Keys.State.{Key, ConnectionCandidate, LastKnownGood}
use blacktemple_kn.Servers.Select.{Server}
use blacktemple_kn.Connection.Candidates.{
  CandidatePair, Progress, find_server_by_id, find_key, is_vless, pair_id, push, push_found,
  push_lkg, push_selected, candidate_order,
}
use blacktemple_kn.Connection.Pushes.{Any, Any-Allows, push_selected-Ok, start-Ok, push_all-Ok}

module _ {P : Type 0} where
  -- No pair twice, and each of the VLESS protocol.
  abbrev pub IsOrder : List (CandidatePair P) → Type 0
  IsOrder out = Distinct (λ p. pair_id p) out × All (λ p. is_vless p ≡ true) out

  -- What was pushed has been seen.
  abbrev Inv : Progress P → Type 0
  Inv g = IsOrder g.out × All (λ p. any (text_eq (pair_id p)) g.seen ≡ true) g.out

  differ :
      (p : CandidatePair P) (seen : List Text) (out : List (CandidatePair P))
      → any (text_eq (pair_id p)) seen ≡ false
      → All (λ q. any (text_eq (pair_id q)) seen ≡ true) out
      → All (λ q. text_eq (pair_id q) (pair_id p) ≡ false) out
  differ p seen [] h a = tt
  differ p seen (q ∷ qs) h a = elim (text_eq_cases (pair_id q) (pair_id p)) [
    | inl (e, same) ↦
        let known = subst (λ i. any (text_eq i) seen ≡ true) same a.0 in ground (arith, h, known)
    | inr n ↦ (n, differ p seen qs h a.1)
  ]

  Distinct-snoc :
      (p : CandidatePair P) (out : List (CandidatePair P))
      → Distinct (λ p. pair_id p) out
      → All (λ q. text_eq (pair_id q) (pair_id p) ≡ false) out
      → Distinct (λ p. pair_id p) (out ++ p ∷ [])
  Distinct-snoc p [] d a = (tt, tt)
  Distinct-snoc p (q ∷ qs) d a = (
    All-append (λ r. text_eq (pair_id q) (pair_id r) ≡ false) qs (p ∷ []) d.0 (a.0, tt),
    Distinct-snoc p qs d.1 a.1,
  )

  seen_before :
      (i : Text) (seen : List Text) (out : List (CandidatePair P))
      → All (λ q. any (text_eq (pair_id q)) seen ≡ true) out
      → All (λ q. any (text_eq (pair_id q)) (i ∷ seen) ≡ true) out
  seen_before i seen [] a = tt
  seen_before i seen (q ∷ qs) a = (ground (arith, a.0), seen_before i seen qs a.1)

  push-Inv : (p : CandidatePair P) (g : Progress P) → Inv g → Inv (push p g)
  unfolding push
  push-Inv p g h = elim (Bool-cases (is_vless p)) [
    | inr e ↦ rw (push, e) h
    | inl e ↦ elim (Bool-cases (any (text_eq (pair_id p)) g.seen)) [
      | inl s ↦ rw (push, e, s) h
      | inr s ↦
          let apart = differ p g.seen g.out s h.1 in
          rw (push, e, s)
            (
              (
                Distinct-snoc p g.out h.0.0 apart,
                All-append (λ q. is_vless q ≡ true) g.out (p ∷ []) h.0.1 (e, tt),
              ),
              All-append (λ q. any (text_eq (pair_id q)) (pair_id p ∷ g.seen) ≡ true) g.out (p ∷ [])
                  (seen_before (pair_id p) g.seen g.out h.1)
                  (ground (arith, text_eq_refl (pair_id p)), tt),
            )
    ]
  ]

  -- The order of candidates holds no pair of a key and a server twice, and only keys of VLESS.
  pub candidate_order-IsOrder :
      (lkg : Option LastKnownGood) (selected : Option ConnectionCandidate) (ks : List (Key P))
      (srvs : List Server)
      → IsOrder (candidate_order lkg selected ks srvs)
  unfolding candidate_order
  candidate_order-IsOrder lkg selected ks srvs =
      let empty : Progress P = (record { seen = []; out = [] }) in
      let next =
        start-Ok Inv Any (λ p g _. push-Inv p g) ks srvs lkg selected empty (λ k s key srv _ _. tt)
          ((tt, tt), tt) in
      (push_all-Ok Inv Any (λ p g _. push-Inv p g) srvs ks
        (push_selected ks srvs selected (push_lkg ks srvs lkg empty)) (Any-Allows srvs ks) next).0

  -- The pair is the first one.
  abbrev pub IsFirst : CandidatePair P → List (CandidatePair P) → Type 0
  IsFirst p out = (rest : List (CandidatePair P)) × (out ≡ p ∷ rest)

  push-IsFirst :
      (first p : CandidatePair P) (g : Progress P)
      → IsFirst first g.out
      → IsFirst first (push p g).out
  unfolding push
  push-IsFirst first p g h = elim (Bool-cases (is_vless p)) [
    | inr e ↦ rw (push, e) h
    | inl e ↦ elim (Bool-cases (any (text_eq (pair_id p)) g.seen)) [
      | inl s ↦ rw (push, e, s) h
      | inr s ↦ rw (push, e, s) (h.0 ++ p ∷ [], ap (λ o. o ++ p ∷ []) h.1)
    ]
  ]

  -- Where the last known good candidate names a VLESS key and a server that are there, it is tried
  -- first.
  pub lkg-IsFirst :
      (lkg : LastKnownGood) (selected : Option ConnectionCandidate) (ks : List (Key P))
      (srvs : List Server) (k : Key P) (srv : Server)
      → find_key ks lkg.key_id ≡ some k
      → find_server_by_id srvs lkg.server_id ≡ some srv
      → is_vless (record { key = k; srv = srv }) ≡ true
      → IsFirst (record { key = k; srv = srv }) (candidate_order (some lkg) selected ks srvs)
  unfolding candidate_order push_lkg push_found push
  lkg-IsFirst lkg selected ks srvs k srv e f v =
      let p : CandidatePair P = (record { key = k; srv = srv }) in
      let Ok : Progress P → Type 0 = (λ g. IsFirst p g.out) in
      let start : Ok (push_lkg ks srvs (some lkg) (record { seen = []; out = [] })) =
        rw (push_lkg, push_found, e, f, push, v) ([], refl) in
      let next =
        push_selected-Ok Ok Any (λ q g _. push-IsFirst p q g) ks srvs selected
          (push_lkg ks srvs (some lkg) (record { seen = []; out = [] })) (λ k s key srv _ _. tt)
          start in
      push_all-Ok Ok Any (λ q g _. push-IsFirst p q g) srvs ks
        (push_selected ks srvs selected
          (push_lkg ks srvs (some lkg) (record { seen = []; out = [] })))
        (Any-Allows srvs ks) next
