-- ===== src/Routing/Fresh.antt =====
-- src/internal/routing/plan.go: the map `seen` of `Build` keeps the ids of rules apart.
use mathlib.Core.List.{
  perm_middle, Nodup, Mem, Nodup-cons, Nodup-nil, not-mem-nil, mem-cons, mem-append_right,
}
use mathlib.Core.List.Perm
use mathlib.Core.Logic.Or
use mathlib.Core.HLevel.{⊥_prop}
use blacktemple_kn.Prelude.{
  Bool, true, false, not, ◌≡◌, refl, List, [], ◌∷◌, ◌++◌, map, keep, any, ◌&&◌, Text, arith, inl,
  inr, Bool-cases, text_eq, text_eq_refl, text_eq_cases,
}
use blacktemple_kn.Routing.Rule.{Rule}
use blacktemple_kn.Routing.Builtin.{builtin_rules, reserved_builtin_ids}
use blacktemple_kn.Routing.Plan.{is_seen}

abbrev pub ids : List Rule → List Text
ids = map (λ r. r.id)

abbrev pub enabled_rules : List Rule → List Rule
enabled_rules = keep (λ r. r.enabled)

-- No id occurs twice, or is one of those seen before.
abbrev pub Fresh : List Text → List Rule → Type 0
Fresh seen [] = Unit
Fresh seen (r ∷ rs) = (is_seen r.id seen ≡ false) × Fresh (r.id ∷ seen) rs

module _ (small big : List Text) where
  -- What is not seen in the big list is not seen in the small one.
  abbrev Fewer : Type 0
  Fewer = (id : Text) → is_seen id big ≡ false → is_seen id small ≡ false

Fewer-cons : (a : Text) (small big : List Text) → Fewer small big → Fewer (a ∷ small) (a ∷ big)
unfolding is_seen
Fewer-cons a small big h id e = ground (arith, h id)

Fresh-mono :
    (small big : List Text) (rs : List Rule) → Fewer small big → Fresh big rs → Fresh small rs
Fresh-mono small big [] h f = tt
Fresh-mono small big (r ∷ rs) h f =
    (h r.id f.0, Fresh-mono (r.id ∷ small) (r.id ∷ big) rs (Fewer-cons r.id small big h) f.1)

Fresh-weaken : (a : Text) (seen : List Text) (rs : List Rule) → Fresh (a ∷ seen) rs → Fresh seen rs
unfolding is_seen
Fresh-weaken a seen rs f = Fresh-mono seen (a ∷ seen) rs (λ id e. ground arith) f

pub Fresh-enabled :
    (seen : List Text) (rs : List Rule) → Fresh seen rs → Fresh seen (enabled_rules rs)
Fresh-enabled seen [] f = tt
Fresh-enabled seen (r ∷ rs) f = elim (Bool-cases r.enabled) [
  | inl e ↦ rw e (f.0, Fresh-enabled (r.id ∷ seen) rs f.1)
  | inr e ↦ rw e (Fresh-enabled seen rs (Fresh-weaken r.id seen rs f.1))
]

is_seen-not-mem : (id : Text) (seen : List Text) → is_seen id seen ≡ false → ¬ Mem id seen
unfolding is_seen
is_seen-not-mem id [] h m = not-mem-nil m
is_seen-not-mem id (a ∷ seen) h m =
    Or.elim ⊥_prop (mem-cons.0 m) (λ e. ground (arith, text_eq_refl id))
      (is_seen-not-mem id seen (ground arith))

pub Fresh-Nodup :
    (seen : List Text) (rs : List Rule) → Nodup seen → Fresh seen rs → Nodup (ids rs ++ seen)
Fresh-Nodup seen [] n f = n
Fresh-Nodup seen (r ∷ rs) n f =
    Perm.nodup (perm_middle (ids rs) seen)
      (Fresh-Nodup (r.id ∷ seen) rs (Nodup-cons.1 (is_seen-not-mem r.id seen f.0, n)) f.1)

abbrev all_distinct : List Text → Bool
all_distinct [] = true
all_distinct (t ∷ ts) = not (any (text_eq t) ts) && all_distinct ts

all_distinct-Nodup : (ts : List Text) → all_distinct ts ≡ true → Nodup ts
unfolding is_seen
all_distinct-Nodup [] h = Nodup-nil
all_distinct-Nodup (t ∷ ts) h =
    Nodup-cons.1 (is_seen-not-mem t ts (ground arith), all_distinct-Nodup ts (ground arith))

pub reserved-Nodup : Nodup reserved_builtin_ids
reserved-Nodup =
    all_distinct-Nodup reserved_builtin_ids
      (unfold reserved_builtin_ids builtin_rules text_eq in refl)

seen_mem : (id : Text) (seen : List Text) → is_seen id seen ≡ true → Mem id seen
unfolding is_seen
seen_mem id [] h = cc
seen_mem id (a ∷ seen) h = elim (text_eq_cases id a) [
  | inl (t, e) ↦ mem-cons.1 (Or.inl e)
  | inr t ↦ mem-cons.1 (Or.inr (seen_mem id seen (ground arith)))
]

not-mem-is_seen : (id : Text) (seen : List Text) → ¬ Mem id seen → is_seen id seen ≡ false
not-mem-is_seen id seen h = elim (Bool-cases (is_seen id seen)) [
  | inl e ↦ absurd (h (seen_mem id seen e))
  | inr e ↦ e
]

pub Nodup-Fresh : (seen : List Text) (rs : List Rule) → Nodup (ids rs ++ seen) → Fresh seen rs
Nodup-Fresh seen [] n = tt
Nodup-Fresh seen (r ∷ rs) n = (
  not-mem-is_seen r.id seen (λ m. (Nodup-cons.0 n).0 (mem-append_right (ids rs) m)),
  Nodup-Fresh (r.id ∷ seen) rs (Perm.nodup (Perm.symm (perm_middle (ids rs) seen)) n),
)
