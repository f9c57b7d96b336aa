-- ===== src/RemoteLists/Domain.antt =====
-- src/internal/remotelists/parse.go: lines, domains and prefixes.
use blacktemple_kn.Prelude.{
  ℕ, ltb, leb, ◌==◌, ◌+◌, Bool, not, ◌&&◌, ◌||◌, if◌then◌else◌, Option, none, some, [], ◌∷◌, every,
  length, Text, is_empty, codes,
}
use blacktemple_kn.Strings.{
  trim_space, to_lower, has_prefix, has_suffix, trim_prefix, contains, split,
}
use blacktemple_kn.Netip.Addr.{Addr, Prefix, is_4, is_valid, prefix_from}
use blacktemple_kn.Netip.Parse.{parse_addr, parse_prefix}

-- The bytes of a code point, and of a text.
abbrev utf8_size : ℕ → ℕ
utf8_size c = if ltb c 0x80 then 1 else if ltb c 0x800 then 2 else if ltb c 0x10000 then 3 else 4

unfoldable pub byte_length : Text → ℕ
byte_length [] = 0
byte_length (c ∷ cs) = utf8_size c + byte_length cs

-- The line without a carriage return at its end.
unfoldable pub chomp : Text → Text
chomp [] = []
chomp (c ∷ []) = if c == 13 then [] else c ∷ []
chomp (c ∷ d ∷ ds) = c ∷ chomp (d ∷ ds)

-- The text before the first ` #`.
unfoldable pub before_comment : Text → Text
unfolding has_prefix
before_comment [] = []
before_comment (c ∷ cs) =
    let rest = before_comment cs in if has_prefix (c ∷ cs) (codes " #") then [] else c ∷ rest

abbrev or_skip : Text → Option Text
or_skip [] = none
or_skip (c ∷ cs) = some (c ∷ cs)

-- `none` where the line is skipped.
unfoldable pub normalize_line : Text → Option Text
unfolding trim_space has_prefix contains before_comment
normalize_line raw =
    let s = trim_space raw in
    if is_empty s
    then none
    else if has_prefix s (codes "#") || has_prefix s (codes "//")
    then none
    else or_skip (if contains s (codes " #") then trim_space (before_comment s) else s)

abbrev is_label_char : ℕ → Bool
is_label_char c = (leb b'a' c && leb c b'z') || (leb b'0' c && leb c b'9') || c == b'-'

unfoldable pub valid_label : Text → Bool
unfolding has_prefix has_suffix
valid_label lab =
    not (is_empty lab)
    && leb (length lab) 63
    && not (has_prefix lab (codes "-"))
    && not (has_suffix lab (codes "-"))
    && every is_label_char lab

unfoldable pub valid_labels : Text → Bool
unfolding contains has_prefix has_suffix split valid_label
valid_labels s =
    not (is_empty s)
    && not (contains s (codes ".."))
    && not (has_prefix s (codes "."))
    && not (has_suffix s (codes "."))
    && every valid_label (split s b'.')

unfoldable pub valid_domain : Text → Bool
unfolding to_lower byte_length trim_prefix valid_labels
valid_domain t =
    let s = to_lower t in
    not (is_empty s) && leb (byte_length s) 253 && valid_labels (trim_prefix s (codes "*."))

unfoldable pub prefix_of_addr : Addr → Option Prefix
unfolding is_4 prefix_from is_valid
prefix_of_addr a =
    let p = prefix_from a (if is_4 a then 32 else 128) in if is_valid p then some p else none

-- `parsePrefix`
unfoldable pub prefix_named : Text → Option Prefix
unfolding parse_prefix parse_addr is_valid prefix_of_addr
prefix_named t =
    if is_valid (parse_prefix t)
    then some (parse_prefix t)
    else (elim (parse_addr t) [ none ↦ none | some a ↦ prefix_of_addr a ])
