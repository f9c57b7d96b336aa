-- ===== src/Netip/Parse.antt =====
-- Go's package net/netip: `ParseAddr` and `ParsePrefix`.
use blacktemple_kn.Prelude.{
  ℕ, zero, suc, ◌+◌, ◌-◌, ◌*◌, ◌/◌, ◌%◌, ◌^◌, ◌==◌, leb, ltb, Bool, true, false, not, ◌&&◌, ◌||◌,
  if◌then◌else◌, Option, none, some, List, [], ◌∷◌, ◌++◌, Text, is_empty, length,
}
use mathlib.Core.Option
use blacktemple_kn.Strings.Decimal.{is_digit, atoi}
use blacktemple_kn.Netip.Addr.{Addr, v4, v6, Prefix, unset, prefix_from}

-- `parseIPv4Fields`: the fields read so far as a number and how many they are, then the field that
-- is being read and how many digits it has.
unfoldable pub parse_fields : ℕ → ℕ → ℕ → ℕ → Text → Option ℕ
parse_fields done pos val digits [] =
    if pos == 3 && not (digits == 0) then some (done * 256 + val) else none
parse_fields done pos val digits (c ∷ cs) =
    let value = val * 10 + (c - b'0') in
    let digit = parse_fields done pos value (suc digits) cs in
    let dot = parse_fields (done * 256 + val) (suc pos) 0 0 cs in
    if is_digit c
    then if digits == 1 && val == 0 || ltb 255 value then none else digit
    else if c == b'.'
    then if digits == 0 || is_empty cs || pos == 3 then none else dot
    else none

unfoldable pub parse_ipv4 : Text → Option ℕ
unfolding parse_fields
parse_ipv4 = parse_fields 0 0 0 0

abbrev pub hex_value : ℕ → Option ℕ
hex_value c =
    if is_digit c
    then some (c - b'0')
    else if leb b'a' c && leb c b'f'
    then some (c - b'a' + 10)
    else if leb b'A' c && leb c b'F'
    then some (c - b'A' + 10)
    else none

-- The hexadecimal digits in front: how many, their value, and the rest.
unfoldable pub hex_run : ℕ → ℕ → Text → ℕ × ℕ × Text
hex_run off acc [] = (off, acc, [])
hex_run off acc (c ∷ cs) = elim (hex_value c) [
  | none ↦ (off, acc, c ∷ cs)
  | some d ↦ hex_run (suc off) (acc * 16 + d) cs
]

-- The 16-bit groups before and behind the ellipsis; `seen` says that there is one.
pub record Groups : Type 0 where
  pub before : List ℕ
  pub seen : Bool
  pub behind : List ℕ

abbrev count : Groups → ℕ
count g = length g.before + length g.behind

abbrev add : ℕ → Groups → Groups
add n g =
    if g.seen
    then record g { behind = g.behind ++ n ∷ [] }
    else record g { before = g.before ++ n ∷ [] }

-- What stands behind a group: nothing, or a colon with more behind it, which may be an ellipsis.
pub data Tail : Type 0 where
  over bad : Tail
  more ellipsis : Text → Tail

tail_of : Text → Tail
tail_of [] = over
tail_of (c ∷ []) = bad
tail_of (c ∷ d ∷ cs) =
    if not (c == b':') then bad else if d == b':' then ellipsis cs else more (d ∷ cs)

-- A dotted IPv4 address in place of the last two groups.
trailing : Groups → Text → Option Groups
trailing g s =
    if (not g.seen && not (count g == 6)) || ltb 6 (count g)
    then none
    else elim (parse_ipv4 s) [ none ↦ none | some n ↦ some (add (n % 65536) (add (n / 65536) g)) ]

starts_with_dot : Text → Bool
starts_with_dot [] = false
starts_with_dot (c ∷ cs) = c == b'.'

-- The loop of `parseIPv6`, which makes eight rounds at most. What is left of the text must be empty.
groups : ℕ → Groups → Text → Option Groups
unfolding hex_run tail_of trailing starts_with_dot
groups zero g s = if is_empty s then some g else none
groups (suc rounds) g s =
    let (off, acc, rest) = hex_run 0 0 s in
    if off == 0 || ltb 4 off
    then none
    else if starts_with_dot rest
    then trailing g s
    else elim (tail_of rest) [
      | over ↦ some (add acc g)
      | bad ↦ none
      | more cs ↦ groups rounds (add acc g) cs
      | ellipsis cs ↦ if g.seen then none else elim cs [
        | [] ↦ some (record (add acc g) { seen = true })
        | d ∷ ds ↦ groups rounds (record (add acc g) { seen = true }) (d ∷ ds)
      ]
    ]

-- After the loop eight groups must be there, or fewer with an ellipsis, which stands for the others.
-- The first argument is their value so far.
value_of : ℕ → List ℕ → ℕ
value_of acc [] = acc
value_of acc (g ∷ gs) = value_of (acc * 65536 + g) gs

unfoldable pub expand : Groups → Option ℕ
unfolding value_of
expand g =
    let gap = (if g.seen then 8 - count g else 0) in
    if g.seen && not (ltb (count g) 8) || not g.seen && not (count g == 8)
    then none
    else some (value_of (value_of 0 g.before * 65536 ^ gap) g.behind)

no_groups : Bool → Groups
no_groups seen = record { before = []; seen = seen; behind = [] }

-- A leading ellipsis, which may stand alone.
unfoldable pub parse_groups : Text → Option Groups
unfolding groups no_groups
parse_groups [] = groups 8 (no_groups false) []
parse_groups (c ∷ []) = groups 8 (no_groups false) (c ∷ [])
parse_groups (c ∷ d ∷ cs) =
    if c == b':' && d == b':'
    then if is_empty cs then some (no_groups true) else groups 8 (no_groups true) cs
    else groups 8 (no_groups false) (c ∷ d ∷ cs)

-- The text before the first percent sign, and what stands behind it.
unfoldable pub split_zone : Text → Text × Option Text
split_zone [] = ([], none)
split_zone (c ∷ cs) =
    let (s, zone) = split_zone cs in if c == b'%' then ([], some cs) else (c ∷ s, zone)

unfoldable pub parse_ipv6 : Text → Option Addr
unfolding expand parse_groups split_zone
parse_ipv6 t =
    let (s, zone) = split_zone t in
    let parsed : Option ℕ = elim (parse_groups s) [ none ↦ none | some g ↦ expand g ] in
    elim zone [
      | none ↦ Option.map (λ n. v6 n []) parsed
      | some [] ↦ none
      | some (z ∷ zs) ↦ Option.map (λ n. v6 n (z ∷ zs)) parsed
    ]

-- `ParseAddr` looks for the first of a dot, a colon and a percent sign.
parse_from : Text → Text → Option Addr
unfolding parse_ipv4 parse_ipv6
parse_from t [] = none
parse_from t (c ∷ cs) =
    if c == b'.'
    then Option.map v4 (parse_ipv4 t)
    else if c == b':'
    then parse_ipv6 t
    else if c == b'%'
    then none
    else parse_from t cs

unfoldable pub parse_addr : Text → Option Addr
unfolding parse_from
parse_addr t = parse_from t t

-- The text before the last slash, and what stands behind it.
unfoldable pub split_slash : Text → Option (Text × Text)
split_slash [] = none
split_slash (c ∷ cs) = elim (split_slash cs) [
  | some (s, bits) ↦ some (c ∷ s, bits)
  | none ↦ if c == b'/' then some ([], cs) else none
]

unfoldable pub prefix_of : Addr → Text → Prefix
unfolding atoi prefix_from
prefix_of a bits = elim (atoi bits) [ none ↦ unset | some n ↦ prefix_from a n ]

-- A length of more than one digit does not begin with 0.
unfoldable pub plain_bits : Text → Bool
plain_bits [] = true
plain_bits (c ∷ []) = true
plain_bits (c ∷ d ∷ cs) = leb b'1' c && leb c b'9'

has_zone : Addr → Bool
has_zone (v6 n zone) = not (is_empty zone)
has_zone _ = false

-- `ParsePrefix`; `unset` where it returns an error.
unfoldable pub parse_prefix : Text → Prefix
unfolding parse_addr split_slash prefix_of plain_bits has_zone
parse_prefix t = elim (split_slash t) [
  | none ↦ unset
  | some (s, bits) ↦ elim (parse_addr s) [
    | none ↦ unset
    | some a ↦ if has_zone a || not (plain_bits bits) then unset else prefix_of a bits
  ]
]
