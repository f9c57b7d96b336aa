-- ===== src/Routing/Order.antt =====
-- src/internal/routing/plan.go: `sortStable` sorts by priority and id, and the first rule that
-- matches is the least of those that match.
use mathlib.Core.List.{Perm, Memᴰ}
use mathlib.Core.List.Perm
use blacktemple_kn.Prelude.{
  Bool, true, false, ◌≡◌, refl, List, [], ◌∷◌, arith, inl, inr, All, Bool-cases,
}
use blacktemple_kn.Strings.Order.{text_le_trans, text_lt_asym}
use blacktemple_kn.Routing.Mode.{Action}
use blacktemple_kn.Routing.Rule.{Rule, less}
use blacktemple_kn.Routing.Plan.{insert_stable, sort_stable, first_action}

less_asym : (a b : Rule) → less a b ≡ true → less b a ≡ false
unfolding less
less_asym a b h = ground (arith, text_lt_asym a.id b.id)

less_trans : (a b c : Rule) → less b a ≡ false → less c b ≡ false → less c a ≡ false
unfolding less
less_trans a b c h k = ground (arith, text_le_trans a.id b.id c.id)

-- No rule behind `a` is less than `a`.
abbrev pub NoneLess : Rule → List Rule → Type 0
NoneLess a = All (λ r. less r a ≡ false)

abbrev pub IsSorted : List Rule → Type 0
IsSorted [] = Unit
IsSorted (r ∷ rs) = NoneLess r rs × IsSorted rs

NoneLess-trans : (a b : Rule) (rs : List Rule) → less b a ≡ false → NoneLess b rs → NoneLess a rs
NoneLess-trans a b [] h n = tt
NoneLess-trans a b (r ∷ rs) h n = (less_trans a b r h n.0, NoneLess-trans a b rs h n.1)

insert-NoneLess :
    (a r : Rule) (rs : List Rule)
    → less r a ≡ false
    → NoneLess a rs
    → NoneLess a (insert_stable r rs)
unfolding insert_stable
insert-NoneLess a r [] h n = (h, tt)
insert-NoneLess a r (x ∷ xs) h n = ground (arith, insert-NoneLess a r xs h n.1)

insert-IsSorted : (r : Rule) (rs : List Rule) → IsSorted rs → IsSorted (insert_stable r rs)
unfolding insert_stable
insert-IsSorted r [] s = (tt, tt)
insert-IsSorted r (x ∷ xs) s = elim (Bool-cases (less x r)) [
  | inl e ↦
      rw (e, insert_stable) (insert-NoneLess x r xs (less_asym x r e) s.0, insert-IsSorted r xs s.1)
  | inr e ↦ rw (e, insert_stable) ((e, NoneLess-trans r x xs e s.0), s)
]

pub sort-IsSorted : (rs : List Rule) → IsSorted (sort_stable rs)
unfolding sort_stable
sort-IsSorted [] = tt
sort-IsSorted (r ∷ rs) = insert-IsSorted r (sort_stable rs) (sort-IsSorted rs)

insert-perm : (r : Rule) (rs : List Rule) → Perm (insert_stable r rs) (r ∷ rs)
unfolding insert_stable
insert-perm r [] = Perm.refl (r ∷ [])
insert-perm r (x ∷ xs) = elim (Bool-cases (less x r)) [
  | inl e ↦ rw (e, insert_stable) (Perm.trans (Perm.cons x (insert-perm r xs)) (Perm.swap r x xs))
  | inr e ↦ rw (e, insert_stable) (Perm.refl (r ∷ x ∷ xs))
]

pub sort-perm : (rs : List Rule) → Perm (sort_stable rs) rs
unfolding sort_stable
sort-perm [] = Perm.refl []
sort-perm (r ∷ rs) = Perm.trans (insert-perm r (sort_stable rs)) (Perm.cons r (sort-perm rs))

-- How a list of rules decides: by a rule that hits and that no rule which hits is less than, or,
-- where none hits, by the fallback.
pub data Decides (hit : Rule → Bool) (fallback : Action) (rs : List Rule) (a : Action)
    : Type 0 where
  by_rule :
      (r : Rule)
      → Memᴰ r rs
      → hit r ≡ true
      → a ≡ r.action
      → All (λ x. hit x ≡ true → less x r ≡ false) rs
      → Decides hit fallback rs a
  by_fallback : All (λ x. hit x ≡ false) rs → a ≡ fallback → Decides hit fallback rs a

NoneLess-least :
    (hit : Rule → Bool) (r : Rule) (rs : List Rule)
    → NoneLess r rs
    → All (λ x. hit x ≡ true → less x r ≡ false) rs
NoneLess-least hit r [] n = tt
NoneLess-least hit r (x ∷ xs) n = (λ _. n.0, NoneLess-least hit r xs n.1)

less_irrefl : (r : Rule) → less r r ≡ false
less_irrefl r = elim (Bool-cases (less r r)) [ inl e ↦ less_asym r r e | inr e ↦ e ]

Decides-cons :
    (hit : Rule → Bool) (fallback : Action) (r : Rule) (rs : List Rule) (a : Action)
    → hit r ≡ false
    → Decides hit fallback rs a
    → Decides hit fallback (r ∷ rs) a
Decides-cons hit fallback r rs a e (by_rule x m h p q) = by_rule x (Memᴰ.tail m) h p (λ k. cc, q)
Decides-cons hit fallback r rs a e (by_fallback q p) = by_fallback (e, q) p

pub first_action-Decides :
    (hit : Rule → Bool) (fallback : Action) (rs : List Rule)
    → IsSorted rs
    → Decides hit fallback rs (first_action hit fallback rs)
unfolding first_action
first_action-Decides hit fallback [] s = by_fallback tt refl
first_action-Decides hit fallback (r ∷ rs) s = elim (Bool-cases (hit r)) [
  | inl e ↦
      rw (e, first_action)
        (by_rule r (Memᴰ.head refl) e refl (λ _. less_irrefl r, NoneLess-least hit r rs s.0))
  | inr e ↦
      rw (e, first_action)
        (Decides-cons hit fallback r rs _ e (first_action-Decides hit fallback rs s.1))
]
