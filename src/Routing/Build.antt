-- ===== src/Routing/Build.antt =====
-- src/internal/routing/plan.go: what `Build` promises, and when it refuses.
use mathlib.Core.List.{Perm, perm_append_comm, map-append, Nodup, Nodup-append, append_assoc}
use mathlib.Core.List.Perm
use blacktemple_kn.Prelude.{
  true, ◌≡◌, refl, List, [], ◌∷◌, ◌++◌, subst, Text, arith, ◌⊎◌, inl, inr, Bool-cases, codes,
}
use blacktemple_kn.Routing.Mode.{valid_mode, Result, ok, err, ◌>>=◌}
use blacktemple_kn.Routing.Rule.{Rule, normalize}
use blacktemple_kn.Routing.Builtin.{builtin_rules, reserved_builtin_ids, fallback_action}
use blacktemple_kn.Routing.Plan.{Input, Plan, is_seen, collect, sort_stable, build}
use blacktemple_kn.Routing.Order.{IsSorted, sort-IsSorted, sort-perm}
use blacktemple_kn.Routing.Fresh.{
  ids, enabled_rules, Fresh, Fresh-enabled, Fresh-Nodup, reserved-Nodup, Nodup-Fresh,
}

-- Every rule normalised, in order; an error if one is not valid.
unfoldable pub normalize_all : List Rule → Result (List Rule)
normalize_all [] = ok []
normalize_all (raw ∷ raws) = do r ← normalize raw; rest ← normalize_all raws; ok (r ∷ rest)

Result-cases {ℓ} : {A : Type ℓ} (m : Result A) → ((a : A) × (m ≡ ok a)) ⊎ ((e : _) × (m ≡ err e))
Result-cases (ok a) = inl (a, refl)
Result-cases (err e) = inr (e, refl)

-- What `collect` gives is the enabled ones of the normalised rules, whose ids are fresh.
record IsCollected (seen : List Text) (raws : List Rule) (out : List Rule) : Type 0 where
  all : List Rule
  normal : normalize_all raws ≡ ok all
  fresh : Fresh seen all
  kept : out ≡ enabled_rules all

collect-IsCollected :
    (seen : List Text) (raws : List Rule) {out : List Rule}
    → collect seen raws ≡ ok out
    → IsCollected seen raws out
unfolding collect normalize_all
collect-IsCollected seen [] h = record { all = []; normal = refl; fresh = tt; kept = ground arith }
collect-IsCollected seen (raw ∷ raws) {out} h = elim (Result-cases (normalize raw)) [
  | inr (e, p) ↦ absurd (ground arith)
  | inl (r, p) ↦ elim (Bool-cases (is_seen r.id seen)) [
    | inl s ↦ absurd (ground arith)
    | inr s ↦ elim (Result-cases (collect (r.id ∷ seen) raws)) [
      | inr (e, q) ↦ absurd (ground arith)
      | inl (rest, q) ↦
          let c = collect-IsCollected (r.id ∷ seen) raws q in
          record {
            all = r ∷ c.all;
            normal = rw (p, c.normal);
            fresh = (s, c.fresh);
            kept = ground (arith, c.kept);
          }
    ]
  ]
]

normalize_all-cons :
    (raw : Rule) (raws all : List Rule)
    → normalize_all (raw ∷ raws) ≡ ok all
    → (r : Rule) × (rest : List Rule) × (normalize raw ≡ ok r)
      × (normalize_all raws ≡ ok rest)
      × (all ≡ r ∷ rest)
unfolding normalize_all
normalize_all-cons raw raws all h = elim (Result-cases (normalize raw)) [
  | inr (e, p) ↦ absurd (ground arith)
  | inl (r, p) ↦ elim (Result-cases (normalize_all raws)) [
    | inr (e, q) ↦ absurd (ground arith)
    | inl (rest, q) ↦ (r, rest, p, q, ground arith)
  ]
]

-- The other way round.
collect_complete :
    (seen : List Text) (raws all : List Rule)
    → normalize_all raws ≡ ok all
    → Fresh seen all
    → collect seen raws ≡ ok (enabled_rules all)
unfolding collect
collect_complete seen [] all h f = unfold normalize_all in ground arith
collect_complete seen (raw ∷ raws) all h f =
    let (r, rest, p, q, e) = normalize_all-cons raw raws all h in
    let fresh : Fresh seen (r ∷ rest) = subst (Fresh seen) e f in
    rw (e, p, fresh.0, collect_complete (r.id ∷ seen) raws rest q fresh.1)

-- What a plan is, by the rules of its input: all of these are valid, no two have one id and none has
-- that of a builtin rule, disabled ones included. The plan holds the builtin rules and the enabled
-- ones, each as often as it is given, in the order of priority and id, and no two with one id.
pub record IsPlanOf (input : Input) (p : Plan) : Type 0 where
  pub known_mode : valid_mode input.mode ≡ true
  pub all : List Rule
  pub normal : normalize_all input.rules ≡ ok all
  pub distinct : Nodup (ids all ++ reserved_builtin_ids)
  pub contents : Perm p.rules (builtin_rules ++ enabled_rules all)
  pub sorted : IsSorted p.rules
  pub plan_ids : Nodup (ids p.rules)
  pub same_mode : p.mode ≡ input.mode
  pub fallback : p.fallback ≡ fallback_action input.mode
  pub fails_open : p.fail_open ≡ true
  pub same_quic : p.block_quic ≡ input.block_quic

plan-Nodup :
    (all : List Rule)
    → Fresh reserved_builtin_ids all
    → Nodup (ids (builtin_rules ++ enabled_rules all))
plan-Nodup all f = rw (map-append (λ (r : Rule). r.id) builtin_rules) (
    Perm.nodup (perm_append_comm (ids (enabled_rules all)) (ids builtin_rules))
      (Nodup-append.0 with_fallback).0)
  where
    kept : Nodup (ids (enabled_rules all) ++ reserved_builtin_ids)
    kept =
        Fresh-Nodup reserved_builtin_ids (enabled_rules all) reserved-Nodup
          (Fresh-enabled reserved_builtin_ids all f)

    with_fallback :
        Nodup ((ids (enabled_rules all) ++ ids builtin_rules) ++ (codes "builtin-fallback" ∷ []))
    with_fallback =
        unfold reserved_builtin_ids in
        rw (append_assoc (ids (enabled_rules all)) (ids builtin_rules)) kept

-- A plan that `Build` returns is the plan of its input.
pub build-IsPlanOf : (input : Input) {p : Plan} → build input ≡ ok p → IsPlanOf input p
unfolding build
build-IsPlanOf input {p} h = elim (Bool-cases (valid_mode input.mode)) [
  | inr m ↦ absurd (ground arith)
  | inl m ↦ elim (Result-cases (collect reserved_builtin_ids input.rules)) [
    | inr (e, q) ↦ absurd (ground arith)
    | inl (extra, q) ↦
        let c = collect-IsCollected reserved_builtin_ids input.rules q in
        let e : p.rules ≡ sort_stable (builtin_rules ++ enabled_rules c.all) =
          ground (arith, c.kept) in
        record {
          known_mode = m;
          all = c.all;
          normal = c.normal;
          distinct = Fresh-Nodup reserved_builtin_ids c.all reserved-Nodup c.fresh;
          contents = rw e (sort-perm (builtin_rules ++ enabled_rules c.all));
          sorted = rw e (sort-IsSorted (builtin_rules ++ enabled_rules c.all));
          plan_ids = rw e (
              Perm.nodup
                (Perm.map (λ (r : Rule). r.id)
                  (Perm.symm (sort-perm (builtin_rules ++ enabled_rules c.all))))
                (plan-Nodup c.all c.fresh));
          same_mode = ground arith;
          fallback = ground arith;
          fails_open = ground arith;
          same_quic = ground arith;
        }
  ]
]

-- `Build` refuses nothing else: with a known mode, and rules that are all valid and of fresh ids, it
-- returns a plan.
pub build_total :
    (input : Input) (all : List Rule)
    → valid_mode input.mode ≡ true
    → normalize_all input.rules ≡ ok all
    → Nodup (ids all ++ reserved_builtin_ids)
    → (p : Plan) × (build input ≡ ok p)
unfolding build
build_total input all m n d =
    let e = collect_complete reserved_builtin_ids input.rules all n (Nodup-Fresh _ all d) in
    (
      record {
        mode = input.mode;
        rules = sort_stable (builtin_rules ++ enabled_rules all);
        block_quic = input.block_quic;
        fail_open = true;
        fallback = fallback_action input.mode;
      },
      rw (m, e),
    )
