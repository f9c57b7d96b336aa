-- ===== src/Examples/Listed.antt =====
-- The theorem on remote lists at a concrete input.
use blacktemple_kn.Prelude.{◌≤◌, true, [], ◌∷◌, length, Text, codes, ◌≡◌, refl, text_eq}
use blacktemple_kn.Strings.{split}
use blacktemple_kn.RemoteLists.Limits.{Limits}
use blacktemple_kn.RemoteLists.Domain.{valid_domain}
use blacktemple_kn.RemoteLists.Parse.{Parsed, domain_reader, parse_lines}
use blacktemple_kn.RemoteLists.Bounded.{IsSound, parse_lines-IsSound, read_domain-valid_domain}

abbrev four_lines : Limits
four_lines = record { max_bytes = 100; max_line = 20; max_lines = 4 }

abbrev body : Text
body = codes "Example.org\n# none\nexample.org\n-bad.org"

abbrev parsed : Parsed Text
parsed = record {
  found = (codes "example.org", 1) ∷ [];
  issues =
      record { line = 3; reason = codes "duplicate" }
      ∷ record { line = 4; reason = codes "invalid domain" }
      ∷ [];
  lines = 4;
  entries = 1;
  skipped = 2;
  dupes = 1;
}

parse_lines-IsSound_example :
    IsSound domain_reader (λ d. valid_domain d ≡ true) read_domain-valid_domain parsed
    × (parsed.lines ≡ length (split body 10))
    × (parsed.lines ≤ four_lines.max_lines)
unfolding parse_lines domain_reader text_eq
parse_lines-IsSound_example =
    parse_lines-IsSound domain_reader (λ d. valid_domain d ≡ true) read_domain-valid_domain
      four_lines body parsed refl
