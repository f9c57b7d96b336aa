-- ===== src/Prelude/Ids.antt =====
-- Lists whose elements are known by an id.
use Prim.Native.Nat.{ℕ, zero, suc, ◌<◌}
use mathlib.Core.Path.{◌≡◌, sym, ap, subst}
use mathlib.Core.Logic.{◌≢◌, ◌⊎◌, inl, inr}
use mathlib.Core.Bool.{false}
use mathlib.Core.List.{List, [], ◌∷◌}
use mathlib.Core.Option.{some}
use native.Mathlib.Omega.{arith}
use blacktemple_kn.Prelude.Lists.{get_elem?, All}
use blacktemple_kn.Prelude.Tests.{get_or}
use blacktemple_kn.Prelude.Texts.{Text, text_eq, text_eq_refl}

module _ {ℓ κ} {A : Type ℓ} (P : A → Type κ) where
  pub All-get_elem? : (xs : List A) (i : ℕ) (a : A) → All P xs → get_elem? xs i ≡ some a → P a
  All-get_elem? [] i a h e = ground arith
  All-get_elem? (x ∷ xs) zero a h e = subst P (ap (get_or a) e) h.0
  All-get_elem? (x ∷ xs) (suc i) a h e = All-get_elem? xs i a h.1 e

module _ {ℓ} {A : Type ℓ} (id : A → Text) where
  -- No two elements have the same id.
  abbrev pub Distinct : List A → Type 0
  Distinct [] = Unit
  Distinct (x ∷ xs) = All (λ y. text_eq (id x) (id y) ≡ false) xs × Distinct xs

  Distinct-lt :
      (xs : List A) (i j : ℕ) (a b : A)
      → Distinct xs
      → get_elem? xs i ≡ some a
      → get_elem? xs j ≡ some b
      → i < j
      → id a ≢ id b
  Distinct-lt [] i j a b d ea eb h = ground arith
  Distinct-lt (x ∷ xs) zero zero a b d ea eb h = omega arith
  Distinct-lt (x ∷ xs) (suc i) zero a b d ea eb h = omega arith
  Distinct-lt (x ∷ xs) zero (suc j) a b d ea eb h =
      let differ = All-get_elem? (λ y. text_eq (id x) (id y) ≡ false) xs j b d.0 eb in
      λ same. ground (arith, ea, same, differ, text_eq_refl (id b))
  Distinct-lt (x ∷ xs) (suc i) (suc j) a b d ea eb h =
      Distinct-lt xs i j a b d.1 ea eb (omega arith)

  pub Distinct-get_elem? :
      (xs : List A) (i j : ℕ) (a b : A)
      → Distinct xs
      → get_elem? xs i ≡ some a
      → get_elem? xs j ≡ some b
      → i ≢ j
      → id a ≢ id b
  Distinct-get_elem? xs i j a b d ea eb h = elim (lt_or_gt i j h) [
    | inl l ↦ Distinct-lt xs i j a b d ea eb l
    | inr g ↦ λ same. Distinct-lt xs j i b a d eb ea g (sym same)
  ]
    where
      lt_or_gt : (i j : ℕ) → i ≢ j → (i < j) ⊎ (j < i)
      lt_or_gt i j h = omega arith
