-- ===== src/Strings.antt =====
-- The functions of Go's package strings (and strconv) that the modelled code calls, on texts as
-- lists of code points. Case is mapped and white space is recognised as Go does for ASCII letters
-- and for every Unicode space; other letters keep their case.
pub mod Decimal
pub mod Order
use blacktemple_kn.Prelude.{
  ℕ, suc, ◌+◌, ◌-◌, ◌==◌, leb, Bool, true, false, not, ◌&&◌, ◌||◌, if◌then◌else◌, Option, none,
  some, List, [], ◌∷◌, ◌++◌, map, any, keep, Text, text_eq, is_empty, ◌≡◌, refl, arith, sym, ap,
  ◌∙◌,
}
use mathlib.Core.List.{reverse}

abbrev pub lower_char : ℕ → ℕ
lower_char c = if leb b'A' c && leb c b'Z' then c + 32 else c

-- `unicode.IsSpace`
unfoldable pub is_space : ℕ → Bool
is_space c =
    (leb 9 c && leb c 13)
    || c == 32
    || c == 0x85
    || c == 0xa0
    || c == 0x1680
    || (leb 0x2000 c && leb c 0x200a)
    || c == 0x2028
    || c == 0x2029
    || c == 0x202f
    || c == 0x205f
    || c == 0x3000

unfoldable pub to_lower : Text → Text
to_lower = map lower_char

-- The text from its first character on that is no space.
unfoldable pub trim_left : Text → Text
unfolding is_space
trim_left [] = []
trim_left (c ∷ cs) = if is_space c then trim_left cs else c ∷ cs

unfoldable pub trim_space : Text → Text
unfolding trim_left
trim_space t = reverse (trim_left (reverse (trim_left t)))

unfoldable pub has_prefix : Text → Text → Bool
has_prefix t [] = true
has_prefix [] (p ∷ ps) = false
has_prefix (c ∷ cs) (p ∷ ps) = c == p && has_prefix cs ps

-- What stands behind the prefix, where there is one.
unfoldable pub after_prefix : Text → Text → Option Text
after_prefix t [] = some t
after_prefix [] (p ∷ ps) = none
after_prefix (c ∷ cs) (p ∷ ps) = if c == p then after_prefix cs ps else none

unfoldable pub trim_prefix : Text → Text → Text
unfolding after_prefix
trim_prefix t p = elim (after_prefix t p) [ none ↦ t | some rest ↦ rest ]

unfoldable pub has_suffix : Text → Text → Bool
unfolding has_prefix
has_suffix t s = has_prefix (reverse t) (reverse s)

unfoldable pub trim_suffix : Text → Text → Text
unfolding trim_prefix
trim_suffix t s = reverse (trim_prefix (reverse t) (reverse s))

unfoldable pub contains : Text → Text → Bool
unfolding has_prefix
contains [] p = is_empty p
contains (c ∷ cs) p = has_prefix (c ∷ cs) p || contains cs p

-- The pieces between the separators; the first argument is the piece so far, reversed.
unfoldable pub split_from : Text → ℕ → Text → List Text
split_from piece sep [] = reverse piece ∷ []
split_from piece sep (c ∷ cs) =
    if c == sep then reverse piece ∷ split_from [] sep cs else split_from (c ∷ piece) sep cs

unfoldable pub split : Text → ℕ → List Text
unfolding split_from
split t sep = split_from [] sep t

-- `strings.Fields`: the pieces between runs of white space.
unfoldable pub fields_from : Text → Text → List Text
unfolding is_space
fields_from [] [] = []
fields_from (p ∷ ps) [] = reverse (p ∷ ps) ∷ []
fields_from [] (c ∷ cs) = fields_from (if is_space c then [] else c ∷ []) cs
fields_from (p ∷ ps) (c ∷ cs) =
    let ended = reverse (p ∷ ps) ∷ fields_from [] cs in
    let longer = fields_from (c ∷ p ∷ ps) cs in if is_space c then ended else longer

unfoldable pub fields : Text → List Text
unfolding fields_from
fields = fields_from []

-- `a < b`
unfoldable pub text_lt : Text → Text → Bool
text_lt [] [] = false
text_lt [] (b ∷ bs) = true
text_lt (a ∷ as') [] = false
text_lt (a ∷ as') (b ∷ bs) = if a == b then text_lt as' bs else leb a b
