-- ===== src/Prelude/Texts.antt =====
-- Text as the list of its code points. Go compares the UTF-8 bytes, in the same order.
use Prim.Native.Char.{code}
use Prim.Native.String.{String}
use Prim.Native.Nat.{ℕ}
use mathlib.Core.Path.{◌≡◌, refl}
use mathlib.Core.Logic.{◌⊎◌, inl, inr}
use mathlib.Core.Bool.{Bool, true, false, ◌&&◌}
use mathlib.Core.List.{List, [], ◌∷◌}
use native.Mathlib.Omega.{arith}
use blacktemple_kn.Prelude.Tests.{◌==◌}

abbrev pub Text : Type 0
Text = List ℕ

-- The code points of a literal.
abbrev pub codes : String → Text
codes String.[] = []
codes (String.◌∷◌ c s) = code c ∷ codes s

-- `a == b` on strings
unfoldable pub text_eq : Text → Text → Bool
text_eq [] [] = true
text_eq [] (b ∷ bs) = false
text_eq (a ∷ as') [] = false
text_eq (a ∷ as') (b ∷ bs) = a == b && text_eq as' bs

pub text_eq_sound : (a b : Text) → text_eq a b ≡ true → a ≡ b
unfolding text_eq
text_eq_sound [] [] h = refl
text_eq_sound [] (b ∷ bs) h = ground arith
text_eq_sound (a ∷ as') [] h = ground arith
text_eq_sound (a ∷ as') (b ∷ bs) h = ground (arith, text_eq_sound as' bs)

pub text_eq_refl : (a : Text) → text_eq a a ≡ true
unfolding text_eq
text_eq_refl [] = refl
text_eq_refl (a ∷ as') = ground (arith, text_eq_refl as')

pub text_eq_cases : (a b : Text) → ((text_eq a b ≡ true) × (a ≡ b)) ⊎ (text_eq a b ≡ false)
text_eq_cases a b = go (text_eq a b) refl
  where
    go : (t : Bool) → text_eq a b ≡ t → ((text_eq a b ≡ true) × (a ≡ b)) ⊎ (text_eq a b ≡ false)
    go true e = inl (e, text_eq_sound a b e)
    go false e = inr e

abbrev pub is_empty : Text → Bool
is_empty [] = true
is_empty (c ∷ cs) = false
