-- ===== src/RemotePolicy/Assigning.antt =====
-- src/internal/remotepolicy/parse.go: which documents are accepted.
use blacktemple_kn.Prelude.{
  Bool, true, false, not, ◌&&◌, ◌||◌, if◌then◌else◌, Option, none, some, is_some, List, [], ◌∷◌,
  ◌++◌, Text, codes, text_eq, is_empty, ◌⊎◌, inl, inr, ◌≡◌, refl, sym, ap, ◌∙◌, arith, Option-cases,
}
use mathlib.Core.List.{append_assoc, append-nil}
use blacktemple_kn.Strings.{trim_space, to_lower}
use blacktemple_kn.RemotePolicy.Settings.{Settings, no_settings}
use blacktemple_kn.RemotePolicy.Keys.{
  Key, ValueKind, kind_bool, kind_int, kind_string, kind_enum, kind_string_slice, kind_uri, kind,
  key_named, set_bool, set_int, set_string, set_uri,
}
use blacktemple_kn.RemotePolicy.Document.{
  Decoder, Error, invalid_known_key, Issue, enum_ok, http_url, parse_uri, parse_enum, then_set,
  or_empty, assign_as, assign, assign_all, sort_issues, parse_object, parse,
}

module _ (json : Decoder) where
  -- The URL has a host and the scheme http or https, in any case.
  abbrev shows_http : Option (Text × Text) → Bool
  shows_http none = false
  shows_http (some (scheme, host)) =
      not (is_empty scheme)
      && (not (is_empty host)
          && (text_eq (to_lower scheme) (codes "http")
              || text_eq (to_lower scheme) (codes "https")))

  abbrev shows_action : Option Text → Bool
  shows_action none = false
  shows_action (some v) =
      text_eq v (codes "direct") || (text_eq v (codes "proxy") || text_eq v (codes "block"))

  abbrev shows_url : Option Text → Bool
  shows_url none = false
  shows_url (some v) = shows_http (json.parse_url (trim_space v))

  -- The value has the type of the key.
  abbrev pub fits : ValueKind → json.Raw → Bool
  fits kind_bool raw = is_some (json.bool raw)
  fits kind_int raw = is_some (json.int raw)
  fits kind_string raw = is_some (json.string raw)
  fits kind_enum raw = shows_action (json.string raw)
  fits kind_string_slice raw = is_some (json.strings raw)
  fits kind_uri raw = shows_url (json.string raw)

  abbrev pub fits_key : Option Key → json.Raw → Bool
  fits_key none raw = true
  fits_key (some k) raw = fits (kind k) raw

  abbrev pub all_fit : List (Text × json.Raw) → Bool
  all_fit [] = true
  all_fit ((t, raw) ∷ rest) = fits_key (key_named t) raw && all_fit rest

  abbrev pub unknown : List (Text × json.Raw) → List Issue
  unknown [] = []
  unknown ((t, raw) ∷ rest) =
      if is_some (key_named t)
      then unknown rest
      else record { key = t; reason = codes "unknown key ignored" } ∷ unknown rest

  parse_enum-shows_action :
      (raw : json.Raw) → is_some (parse_enum json raw) ≡ shows_action (json.string raw)
  unfolding parse_enum enum_ok
  parse_enum-shows_action raw = elim (Option-cases (json.string raw)) [
    | inl n ↦ rw (parse_enum, n) refl
    | inr (v, s) ↦ rw (parse_enum, s) (ground arith)
  ]

  http_url-shows_http :
      (v : Text) (u : Text × Text) → is_some (http_url json v u) ≡ shows_http (some u)
  unfolding http_url enum_ok
  http_url-shows_http v (scheme, host) = ground arith

  parse_uri-shows_url :
      (raw : json.Raw) → is_some (parse_uri json raw) ≡ shows_url (json.string raw)
  unfolding parse_uri
  parse_uri-shows_url raw = elim (Option-cases (json.string raw)) [
    | inl n ↦ rw (parse_uri, n) refl
    | inr (v, s) ↦
        rw (parse_uri, s)
          (elim (Option-cases (json.parse_url (trim_space v))) [
            | inl n ↦ rw n refl
            | inr (u, t) ↦ rw t (http_url-shows_http v u)
          ])
  ]

  then_set-is_some : {A B : Type 0} (o : Option A) (f : A → B) → is_some (then_set o f) ≡ is_some o
  then_set-is_some none f = refl
  then_set-is_some (some a) f = refl

  assign_as-fits :
      (v : ValueKind) (k : Key) (raw : json.Raw) (s : Settings)
      → is_some (assign_as json v k raw s) ≡ fits v raw
  unfolding assign_as
  assign_as-fits kind_bool k raw s = then_set-is_some (json.bool raw) (λ v. set_bool k v s)
  assign_as-fits kind_int k raw s = then_set-is_some (json.int raw) (λ v. set_int k v s)
  assign_as-fits kind_string k raw s = then_set-is_some (json.string raw) (λ v. set_string k v s)
  assign_as-fits kind_enum k raw s =
      then_set-is_some (parse_enum json raw) (λ v. record s { custom_route_action = some v })
      ∙ parse_enum-shows_action raw
  assign_as-fits kind_string_slice k raw s =
      then_set-is_some (json.strings raw)
        (λ v. record s { custom_route_domains = some (or_empty v) })
  assign_as-fits kind_uri k raw s =
      then_set-is_some (parse_uri json raw) (λ v. set_uri k v s) ∙ parse_uri-shows_url raw

  -- What the loop gives, where it had ignored some keys before.
  abbrev IsJudged : List (Text × json.Raw) → List Issue → Option (Settings × List Issue) → Type 0
  IsJudged entries before none = all_fit entries ≡ false
  IsJudged entries before (some (s, ignored)) =
      (all_fit entries ≡ true) × (ignored ≡ before ++ unknown entries)

  skip-IsJudged :
      (t : Text) (raw : json.Raw) (rest : List (Text × json.Raw)) (before : List Issue)
      (o : Option (Settings × List Issue))
      → key_named t ≡ none
      → IsJudged rest (before ++ record { key = t; reason = codes "unknown key ignored" } ∷ []) o
      → IsJudged ((t, raw) ∷ rest) before o
  skip-IsJudged t raw rest before none n h = rw n h
  skip-IsJudged t raw rest before (some (s, ignored)) n (fit, same) = rw n (
    fit,
    same
        ∙ append_assoc before (record { key = t; reason = codes "unknown key ignored" } ∷ [])
            (unknown rest),
  )

  known-IsJudged :
      (t : Text) (raw : json.Raw) (rest : List (Text × json.Raw)) (before : List Issue)
      (o : Option (Settings × List Issue)) (k : Key)
      → key_named t ≡ some k
      → fits (kind k) raw ≡ true
      → IsJudged rest before o
      → IsJudged ((t, raw) ∷ rest) before o
  known-IsJudged t raw rest before none k found fit h = rw (found, fit) h
  known-IsJudged t raw rest before (some (s, ignored)) k found fit h = rw (found, fit) h

  assign-fits :
      (k : Key) (raw : json.Raw) (s : Settings) → is_some (assign json k raw s) ≡ fits (kind k) raw
  unfolding assign
  assign-fits k raw s = assign_as-fits (kind k) k raw s

  assign_all-IsJudged :
      (entries : List (Text × json.Raw)) (s : Settings) (before : List Issue)
      → IsJudged entries before (assign_all json entries s before)
  unfolding assign_all
  assign_all-IsJudged [] s before = (refl, sym (append-nil before))
  assign_all-IsJudged ((t, raw) ∷ rest) s before = elim (Option-cases (key_named t)) [
    | inl n ↦
        skip-IsJudged t raw rest before _ n (rw (assign_all, n) (assign_all-IsJudged rest s _))
    | inr (k, found) ↦ elim (Option-cases (assign json k raw s)) [
      | inl n ↦ rw (assign_all, found, n) (bad k found (sym (assign-fits k raw s) ∙ ap is_some n))
      | inr (s', good) ↦
          rw (assign_all, found, good)
            (known-IsJudged t raw rest before _ k found
              (sym (assign-fits k raw s) ∙ ap is_some good) (assign_all-IsJudged rest s' before))
    ]
  ]
    where
      bad :
          (k : Key)
          → key_named t ≡ some k
          → fits (kind k) raw ≡ false
          → IsJudged ((t, raw) ∷ rest) before none
      bad k found no_fit = rw (found, no_fit) refl

  -- A document whose text is an object is accepted just where each value of a known key has the
  -- key's type; then the keys that are ignored are just the unknown ones, sorted. Otherwise it is
  -- rejected as a whole.
  pub parse-judges :
      (body : Text) (entries : List (Text × json.Raw))
      → is_empty (trim_space body) ≡ false
      → json.object (trim_space body) ≡ some entries
      → ((all_fit entries ≡ false) × (parse json body ≡ inl invalid_known_key))
        ⊎ ((all_fit entries ≡ true)
            × ((s : Settings) × (parse json body ≡ inr (s, sort_issues (unknown entries)))))
  unfolding parse parse_object
  parse-judges body entries full read =
      rw (parse, full, read)
        (judged (assign_all json entries no_settings [])
          (assign_all-IsJudged entries no_settings []))
    where
      Verdict : Option (Settings × List Issue) → Error ⊎ (Settings × List Issue)
      Verdict o = elim o [
        | none ↦ inl invalid_known_key
        | some (s, ignored) ↦ inr (s, sort_issues ignored)
      ]

      judged :
          (o : Option (Settings × List Issue))
          → IsJudged entries [] o
          → ((all_fit entries ≡ false) × (Verdict o ≡ inl invalid_known_key))
            ⊎ ((all_fit entries ≡ true)
                × ((s : Settings) × (Verdict o ≡ inr (s, sort_issues (unknown entries)))))
      judged none h = inl (h, refl)
      judged (some (s, ignored)) (fit, same) = inr (fit, (s, ap (λ x. inr (s, sort_issues x)) same))
