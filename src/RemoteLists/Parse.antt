-- ===== src/RemoteLists/Parse.antt =====
-- src/internal/remotelists/parse.go: `Parse`. A body has its size in bytes, and its text where it is
-- valid UTF-8.
use blacktemple_kn.Prelude.{
  ℕ, suc, ltb, ◌==◌, ◌-◌, Bool, not, if◌then◌else◌, Option, none, some, List, [], ◌∷◌, ◌++◌, any,
  keep, length, Text, text_eq, is_empty, codes, ◌⊎◌, inl, inr,
}
use blacktemple_kn.Strings.{to_lower, split, has_suffix}
use blacktemple_kn.Netip.Addr.{Prefix}
use blacktemple_kn.Netip.Format.{format_prefix}
use blacktemple_kn.RemoteLists.Limits.{
  ListType, domains, cidrs, telegram_ips, whatsapp_ips, Limits, limits_for, known_type,
}
use blacktemple_kn.RemoteLists.Domain.{
  byte_length, chomp, normalize_line, valid_domain, prefix_named,
}

pub data Error : Type 0 where
  unknown too_large invalid_content too_many_lines : Error

pub record Body : Type 0 where
  pub size : ℕ
  pub text : Option Text

pub record Issue : Type 0 where
  pub line : ℕ
  pub reason : Text

-- An entry `A` is a domain or a prefix, with its line.
pub record Parsed (A : Type 0) : Type 0 where
  pub found : List (A × ℕ)
  pub issues : List Issue
  pub lines : ℕ
  pub entries : ℕ
  pub skipped : ℕ
  pub dupes : ℕ

abbrev pub nothing : {A : Type 0} → Parsed A
nothing = record { found = []; issues = []; lines = 0; entries = 0; skipped = 0; dupes = 0 }

-- How the entries of a list are read, what is said of a line that is none, and the key in `seen`.
pub record Reader (A : Type 0) : Type 0 where
  pub read : Text → Option A
  pub complaint : Text
  pub key : A → Text

unfoldable pub read_domain : Text → Option Text
unfolding to_lower valid_domain
read_domain t = let low = to_lower t in if valid_domain low then some low else none

unfoldable pub domain_reader : Reader Text
unfolding read_domain
domain_reader = record { read = read_domain; complaint = codes "invalid domain"; key = λ d. d }

unfoldable pub cidr_reader : Reader Prefix
unfolding prefix_named format_prefix
cidr_reader = record { read = prefix_named; complaint = codes "invalid cidr"; key = format_prefix }

module _ {A : Type 0} (reader : Reader A) where
  unfoldable pub reject : Text → Parsed A → Parsed A
  reject reason p = record p {
    skipped = suc p.skipped;
    issues = p.issues ++ record { line = p.lines; reason = reason } ∷ [];
  }

  -- The map `seen` holds the keys of what is found.
  unfoldable pub is_known : Text → Parsed A → Bool
  is_known k p = any (λ f. text_eq (reader.key f.0) k) p.found

  unfoldable pub add_found : A → Parsed A → Parsed A
  add_found a p = record p { found = p.found ++ (a, p.lines) ∷ []; entries = suc p.entries }

  unfoldable pub parse_entry : Option A → Parsed A → Parsed A
  unfolding reject is_known add_found
  parse_entry none p = reject reader.complaint p
  parse_entry (some a) p =
      if is_known (reader.key a) p
      then reject (codes "duplicate") (record p { dupes = suc p.dupes })
      else add_found a p

  unfoldable pub parse_text : Option Text → Parsed A → Parsed A
  unfolding parse_entry
  parse_text none p = p
  parse_text (some t) p = parse_entry (reader.read t) p

  -- The function that `walkLines` calls.
  unfoldable pub parse_line : Limits → Text → Parsed A → Parsed A
  unfolding byte_length reject normalize_line parse_text
  parse_line lim raw p =
      if ltb lim.max_line (byte_length raw)
      then reject (codes "line too long") p
      else parse_text (normalize_line raw) p

  -- The lines from the one behind `p.lines` on.
  unfoldable pub walk_lines : Limits → List Text → Parsed A → Error ⊎ Parsed A
  unfolding parse_line chomp
  walk_lines lim [] p = inr p
  walk_lines lim (raw ∷ rest) p =
      let n = suc p.lines in
      let next = walk_lines lim rest (parse_line lim (chomp raw) (record p { lines = n })) in
      if ltb lim.max_lines n then inl too_many_lines else next

  unfoldable pub parse_lines : Limits → Text → Error ⊎ Parsed A
  unfolding walk_lines split
  parse_lines lim body = walk_lines lim (split body 10) nothing

unfoldable pub count_lines : Text → ℕ
unfolding has_suffix
count_lines body =
    let n = suc (length (keep (λ c. c == 10) body)) in
    if is_empty body then 0 else if has_suffix body (codes "\n") then n - 1 else n

-- What `Parse` gives; the last has the number of lines and ErrProviderFormatNotImplemented.
pub data Outcome : Type 0 where
  of_domains : Parsed Text → Outcome
  of_cidrs : ListType → Parsed Prefix → Outcome
  not_implemented : ListType → ℕ → Outcome

unfoldable pub as_outcome : {A : Type 0} → (A → Outcome) → Error ⊎ A → Error ⊎ Outcome
as_outcome f (inl e) = inl e
as_outcome f (inr a) = inr (f a)

unfoldable pub parse_known : ListType → Limits → Text → Error ⊎ Outcome
unfolding as_outcome parse_lines count_lines
parse_known domains lim text = as_outcome of_domains (parse_lines domain_reader lim text)
parse_known cidrs lim text = as_outcome (of_cidrs cidrs) (parse_lines cidr_reader lim text)
parse_known telegram_ips lim text =
    as_outcome (of_cidrs telegram_ips) (parse_lines cidr_reader lim text)
parse_known whatsapp_ips lim text =
    as_outcome (of_cidrs whatsapp_ips) (parse_lines cidr_reader lim text)
parse_known t lim text =
    if ltb lim.max_lines (count_lines text)
    then inl too_many_lines
    else inr (not_implemented t (count_lines text))

unfoldable pub parse_text_of : ListType → Limits → Option Text → Error ⊎ Outcome
unfolding parse_known
parse_text_of t lim none = inl invalid_content
parse_text_of t lim (some text) =
    if any (λ c. c == 0) text then inl invalid_content else parse_known t lim text

unfoldable pub parse : ListType → Body → Error ⊎ Outcome
unfolding known_type limits_for parse_text_of
parse t body =
    let lim = limits_for t in
    if not (known_type t)
    then inl unknown
    else if ltb lim.max_bytes body.size
    then inl too_large
    else parse_text_of t lim body.text
