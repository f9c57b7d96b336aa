-- ===== src/RemoteLists/Bounded.antt =====
-- src/internal/remotelists/parse.go: what a parsed list holds.
use blacktemple_kn.Prelude.{
  ℕ, suc, ltb, ◌+◌, ◌≤◌, true, false, Option, none, some, List, [], ◌∷◌, ◌++◌, any, All, All-append,
  Distinct, length, length-append, Text, text_eq, codes, ◌⊎◌, inl, inr, ◌≡◌, refl, sym, ap, ◌∙◌,
  subst, arith, Bool-cases, Option-cases, if-both, if-known,
}
use blacktemple_kn.Strings.{to_lower, split}
use blacktemple_kn.RemoteLists.Limits.{Limits}
use blacktemple_kn.RemoteLists.Domain.{chomp, normalize_line, byte_length, valid_domain}
use blacktemple_kn.RemoteLists.Parse.{
  Error, Parsed, nothing, Reader, read_domain, domain_reader, reject, is_known, add_found,
  parse_entry, parse_text, parse_line, walk_lines, parse_lines,
}

module _ {A : Type 0} (key : A → Text) where
  Distinct-append :
      (xs : List A) (a : A)
      → Distinct key xs
      → any (λ x. text_eq (key x) (key a)) xs ≡ false
      → Distinct key (xs ++ a ∷ [])
  Distinct-append [] a d n = (tt, tt)
  Distinct-append (x ∷ xs) a d n = elim (Bool-cases (text_eq (key x) (key a))) [
    | inl y ↦ ground (arith, n, y)
    | inr z ↦ (
      All-append (λ y. text_eq (key x) (key y) ≡ false) xs (a ∷ []) d.0 (z, tt),
      Distinct-append xs a d.1 (ground (arith, n, z)),
    )
  ]

one_more : {A : Type 0} (xs : List A) (x : A) → suc (length xs) ≡ length (xs ++ x ∷ [])
one_more xs x = let whole = length-append xs (x ∷ []) in omega (arith, whole)

module _ {A : Type 0} (reader : Reader A) (IsRead : A → Type 0)
    (reads : (t : Text) (a : A) → reader.read t ≡ some a → IsRead a) where
  -- The entries are as they are read, no two have the same key, they are counted, each line that is
  -- rejected has an issue, and a line gives one entry or issue at most.
  pub record IsSound (p : Parsed A) : Type 0 where
    pub read : All (λ (f : A × ℕ). IsRead f.0) p.found
    pub distinct : Distinct (λ (f : A × ℕ). reader.key f.0) p.found
    pub counted : p.entries ≡ length p.found
    pub explained : p.skipped ≡ length p.issues
    pub duplicates : p.dupes ≤ p.skipped
    pub bounded : p.entries + p.skipped ≤ p.lines

  -- The line is counted.
  abbrev counted_line : Parsed A → Parsed A
  counted_line p = record p { lines = suc p.lines }

  reject-IsSound :
      (reason : Text) (d : ℕ) (p : Parsed A)
      → IsSound p
      → d ≤ suc p.skipped
      → IsSound (reject reader reason (record p { lines = suc p.lines; dupes = d }))
  unfolding reject
  reject-IsSound reason d p h le = record {
    read = h.read;
    distinct = h.distinct;
    counted = h.counted;
    explained = ap suc h.explained ∙ one_more p.issues _;
    duplicates = le;
    bounded = omega (arith, h.bounded);
  }

  add_found-IsSound :
      (a : A) (p : Parsed A)
      → IsSound p
      → IsRead a
      → is_known reader (reader.key a) (counted_line p) ≡ false
      → IsSound (add_found reader a (counted_line p))
  unfolding add_found is_known
  add_found-IsSound a p h good new = record {
    read = All-append (λ (f : A × ℕ). IsRead f.0) p.found ((a, suc p.lines) ∷ []) h.read (good, tt);
    distinct =
        Distinct-append (λ (f : A × ℕ). reader.key f.0) p.found (a, suc p.lines) h.distinct new;
    counted = ap suc h.counted ∙ one_more p.found _;
    explained = h.explained;
    duplicates = h.duplicates;
    bounded = omega (arith, h.bounded);
  }

  passed-IsSound : (p : Parsed A) → IsSound p → IsSound (counted_line p)
  passed-IsSound p h = record {
    read = h.read;
    distinct = h.distinct;
    counted = h.counted;
    explained = h.explained;
    duplicates = h.duplicates;
    bounded = omega (arith, h.bounded);
  }

  rejected-IsSound :
      (reason : Text) (p : Parsed A) → IsSound p → IsSound (reject reader reason (counted_line p))
  rejected-IsSound reason p h = reject-IsSound reason p.dupes p h (omega (arith, h.duplicates))

  parse_entry-IsSound :
      (t : Text) (p : Parsed A)
      → IsSound p
      → IsSound (parse_entry reader (reader.read t) (counted_line p))
  unfolding parse_entry
  parse_entry-IsSound t p h = elim (Option-cases (reader.read t)) [
    | inl n ↦
        subst (λ o. IsSound (parse_entry reader o (counted_line p))) (sym n)
          (rejected-IsSound reader.complaint p h)
    | inr (a, s) ↦
        subst (λ o. IsSound (parse_entry reader o (counted_line p))) (sym s)
          (if-known IsSound (is_known reader (reader.key a) (counted_line p))
            (λ y.
              reject-IsSound (codes "duplicate") (suc p.dupes) p h (omega (arith, h.duplicates)))
            (λ n. add_found-IsSound a p h (reads t a s) n))
  ]

  parse_line-IsSound :
      (lim : Limits) (raw : Text) (p : Parsed A)
      → IsSound p
      → IsSound (parse_line reader lim raw (counted_line p))
  unfolding parse_line parse_text
  parse_line-IsSound lim raw p h =
      if-known IsSound (ltb lim.max_line (byte_length raw))
        (λ y. rejected-IsSound (codes "line too long") p h) (λ n. text (normalize_line raw))
    where
      text : (o : Option Text) → IsSound (parse_text reader o (counted_line p))
      text none = passed-IsSound p h
      text (some t) = parse_entry-IsSound t p h

  parse_line-lines :
      (lim : Limits) (raw : Text) (p : Parsed A) → (parse_line reader lim raw p).lines ≡ p.lines
  unfolding parse_line reject parse_text parse_entry add_found
  parse_line-lines lim raw p =
      if-both SameLines (ltb lim.max_line (byte_length raw)) refl (text (normalize_line raw))
    where
      SameLines : Parsed A → Type 0
      SameLines q = q.lines ≡ p.lines

      entry : (o : Option A) → SameLines (parse_entry reader o p)
      entry none = refl
      entry (some a) = if-both SameLines (is_known reader (reader.key a) p) refl refl

      text : (o : Option Text) → SameLines (parse_text reader o p)
      text none = refl
      text (some t) = entry (reader.read t)

  -- The result of the lines `rest` behind those of `p`.
  abbrev IsWalked : Limits → List Text → Parsed A → Error ⊎ Parsed A → Type 0
  IsWalked lim rest p (inl e) = Unit
  IsWalked lim rest p (inr q) =
      IsSound q × (q.lines ≡ p.lines + length rest) × (q.lines ≤ lim.max_lines)

  walk_lines-IsWalked :
      (lim : Limits) (rest : List Text) (p : Parsed A)
      → IsSound p
      → p.lines ≤ lim.max_lines
      → IsWalked lim rest p (walk_lines reader lim rest p)
  unfolding walk_lines
  walk_lines-IsWalked lim [] p h le = (h, omega arith, le)
  walk_lines-IsWalked lim (raw ∷ rest) p h le =
      let q = parse_line reader lim (chomp raw) (counted_line p) in
      let same = parse_line-lines lim (chomp raw) (counted_line p) in
      if-known (IsWalked lim (raw ∷ rest) p) (ltb lim.max_lines (suc p.lines)) (λ y. tt)
        (λ n. shifted q (walk_lines reader lim rest q) same (
          walk_lines-IsWalked lim rest q (parse_line-IsSound lim (chomp raw) p h)
            (ground (arith, n, same))))
    where
      shifted :
          (q : Parsed A) (r : Error ⊎ Parsed A)
          → q.lines ≡ suc p.lines
          → IsWalked lim rest q r
          → IsWalked lim (raw ∷ rest) p r
      shifted q (inl e) same w = tt
      shifted q (inr d) same w = (w.0, omega (arith, w.1, same), w.2)

  nothing-IsSound : IsSound nothing
  nothing-IsSound = record {
    read = tt;
    distinct = tt;
    counted = refl;
    explained = refl;
    duplicates = omega arith;
    bounded = omega arith;
  }

  -- A body that is parsed has as many lines as the limit allows at most, and all of them are seen. The
  -- entries are what the reader gives, no two have the same key, they are counted, each line that is
  -- rejected has an issue, and there are no more entries and issues than lines.
  pub parse_lines-IsSound :
      (lim : Limits) (body : Text) (q : Parsed A)
      → parse_lines reader lim body ≡ inr q
      → IsSound q × (q.lines ≡ length (split body 10)) × (q.lines ≤ lim.max_lines)
  unfolding parse_lines
  parse_lines-IsSound lim body q e =
      let r =
        subst (IsWalked lim (split body 10) nothing) e
          (walk_lines-IsWalked lim (split body 10) nothing nothing-IsSound (omega arith)) in
      (r.0, omega (arith, r.1), r.2)

-- The domains of a list are valid.
pub read_domain-valid_domain : (t d : Text) → domain_reader.read t ≡ some d → valid_domain d ≡ true
unfolding domain_reader read_domain
read_domain-valid_domain t d h =
    subst IsValidOr h (if-known IsValidOr (valid_domain (to_lower t)) (λ y. y) (λ n. tt))
  where
    IsValidOr : Option Text → Type 0
    IsValidOr none = Unit
    IsValidOr (some x) = valid_domain x ≡ true
