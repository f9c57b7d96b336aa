-- ===== src/Supervisor/Trust.antt =====
-- src/internal/supervisor/recover.go: a pid from the store is never trusted on its own.
use blacktemple_kn.Prelude.{
  ℕ, Bool, true, false, ◌||◌, ◌==◌, ◌≡◌, ◌≢◌, ◌⊎◌, ◌∙◌, ap, sym, subst, refl, inl, inr, Option,
  none, some, Option-cases, Bool-cases, arith, ℤ, nonpositive, Text, is_empty, [], ◌∷◌, ◌++◌, map,
  All, All-append, text_eq_sound,
}
use mathlib.Core.List.{append_assoc, append-nil}
use blacktemple_kn.Supervisor.States.{running}
use blacktemple_kn.Supervisor.Record.{Snapshot, Supervisor, Identity}
use blacktemple_kn.Supervisor.Recovery.{
  Processes, Loaded, not_found, load_error, loaded, mark_stale, recover_idle, restored, fold_char,
  equal_fold, filepath_base, base_from, adopt_failed, adopt_live, recover_pid, recover_snapshot,
  recover, same_executable,
}

abbrev is_separator : ℕ → Bool
is_separator c = c == b'/' || c == b'\\'

-- The text ends in `b`, in front of which stands nothing or a slash or backslash.
abbrev EndsIn : Text → Text → Type 0
EndsIn b p = (p ≡ b) ⊎ ((d : Text) × (c : ℕ) × (is_separator c ≡ true) × (p ≡ d ++ c ∷ b))

-- `b` is the file name of the path.
abbrev pub IsNameOf : Text → Text → Type 0
IsNameOf b p = All (λ c. is_separator c ≡ false) b × EndsIn b p

-- The file names are equal up to case, or the whole paths are.
abbrev pub SameFile : (ℕ → ℕ) → Text → Text → Type 0
SameFile others p q =
    ((a : Text) × (b : Text) × IsNameOf a p
      × IsNameOf b q
      × (map (fold_char others) a ≡ map (fold_char others) b))
    ⊎ (map (fold_char others) p ≡ map (fold_char others) q)

base_from-IsNameOf :
    (p acc mid cs : Text)
    → acc ≡ mid ++ cs
    → All (λ c. is_separator c ≡ false) mid
    → EndsIn acc p
    → IsNameOf (base_from acc cs) p
unfolding base_from
base_from-IsNameOf p acc mid [] e clean h =
    (subst (All (λ c. is_separator c ≡ false)) (sym (e ∙ append-nil mid)) clean, h)
base_from-IsNameOf p acc mid (c ∷ cs) e clean h = elim (Bool-cases (is_separator c)) [
  | inl s ↦ rw (base_from, s) (base_from-IsNameOf p cs [] cs refl tt (shorter s h))
  | inr s ↦
      rw (base_from, s)
        (base_from-IsNameOf p acc (mid ++ c ∷ []) cs (e ∙ sym (append_assoc mid (c ∷ []) cs))
          (All-append (λ c. is_separator c ≡ false) mid (c ∷ []) clean (s, tt)) h)
]
  where
    shorter : is_separator c ≡ true → EndsIn acc p → EndsIn cs p
    shorter s (inl whole) = inr (mid, c, s, whole ∙ e)
    shorter s (inr (d, x, sx, whole)) = inr (
      d ++ x ∷ mid,
      c,
      s,
      whole ∙ ap (λ t. d ++ x ∷ t) e ∙ sym (append_assoc d (x ∷ mid) (c ∷ cs)),
    )

filepath_base-IsNameOf : (p : Text) → IsNameOf (filepath_base p) p
unfolding filepath_base
filepath_base-IsNameOf p = base_from-IsNameOf p p [] p refl tt (inl refl)

same_executable-SameFile :
    (others : ℕ → ℕ) (p q : Text) → same_executable others p q ≡ true → SameFile others p q
unfolding same_executable equal_fold
same_executable-SameFile others p q h =
    elim (Bool-cases (equal_fold others (filepath_base p) (filepath_base q))) [
      | inl e ↦ inl (
        filepath_base p,
        filepath_base q,
        filepath_base-IsNameOf p,
        filepath_base-IsNameOf q,
        text_eq_sound _ _ e,
      )
      | inr e ↦ inr (text_eq_sound _ _ (rw e at h))
    ]

-- All that `Recover` asks of a pid before the child counts as ours.
pub record IsOurs (ps : Processes) (pid : ℤ) (exe : Text) : Type 0 where
  pub positive : nonpositive pid ≡ false
  pub alive : ps.alive pid ≡ true
  pub named : is_empty exe ≡ false
  pub live : Text
  pub live_known : ps.executable pid ≡ some live
  pub same : SameFile ps.fold_others live exe
  pub adopter : ℤ → Option Text
  pub adopts : ps.adopt ≡ some adopter
  pub accepted : adopter pid ≡ none

module _ {F : Type 0} (now : ℕ) (id : Option Identity) (pid : ℤ) where
  adopt_live-running :
      (adopt : Option (ℤ → Option Text)) (s : Supervisor F)
      → (adopt_live now adopt id pid s).state ≡ running
      → (f : ℤ → Option Text) × (adopt ≡ some f) × (f pid ≡ none)
  unfolding adopt_live mark_stale adopt_failed
  adopt_live-running none s h = cc
  adopt_live-running (some f) s h = elim (Option-cases (f pid)) [
    | inl e ↦ (f, refl, e)
    | inr (t, e) ↦ absurd (let k = rw (e, adopt_live) at h in cc)
  ]

  module _ (ps : Processes) (exe : Text) (s : Supervisor F) where
    -- The tests come first; what is left is the answer of the runner.
    recover_pid_tests :
        (recover_pid now ps id pid exe s).state ≡ running
        → (live : Text) × (ps.alive pid ≡ true)
          × (is_empty exe ≡ false)
          × (ps.executable pid ≡ some live)
          × (same_executable ps.fold_others live exe ≡ true)
          × ((adopt_live now ps.adopt id pid s).state ≡ running)
    unfolding recover_pid mark_stale
    recover_pid_tests h = ground arith

    recover_pid-IsOurs :
        nonpositive pid ≡ false
        → (recover_pid now ps id pid exe s).state ≡ running
        → IsOurs ps pid exe
    recover_pid-IsOurs p h =
        let (live, up, named, known, same, rest) = recover_pid_tests h in
        let (f, adopts, accepted) = adopt_live-running ps.adopt s rest in
        record {
          positive = p;
          alive = up;
          named = named;
          live = live;
          live_known = known;
          same = same_executable-SameFile ps.fold_others live exe same;
          adopter = f;
          adopts = adopts;
          accepted = accepted;
        }

module _ {F : Type 0} (now : ℕ) (id : Option Identity) (ps : Processes) where
  recover_snapshot-IsOurs :
      (sn : Snapshot) (stored : Option ℤ) (s : Supervisor F)
      → (recover_snapshot now ps id sn stored s).state ≡ running
      → (pid : ℤ) × (stored ≡ some pid) × IsOurs ps pid sn.executable
  unfolding recover_snapshot recover_idle
  recover_snapshot-IsOurs sn none s h = ground arith
  recover_snapshot-IsOurs sn (some p) s h = elim (Bool-cases (nonpositive p)) [
    | inl e ↦ absurd (ground arith)
    | inr e ↦ (p, refl, recover_pid-IsOurs now id p ps sn.executable (restored sn s) e (rw e at h))
  ]

  -- `Recover` ends in RUNNING, from another state, only where the store holds a snapshot with a pid
  -- that is positive and alive, whose executable is known and has the file name of the one that the
  -- snapshot names, up to case, or its whole path, and that a runner with an `Adopt` method has
  -- adopted without an error.
  pub recover-IsOurs :
      (answer : Loaded) (s : Supervisor F)
      → s.state ≢ running
      → (recover now ps id answer s).state ≡ running
      → (sn : Snapshot) × (pid : ℤ) × (answer ≡ loaded sn)
        × (sn.pid ≡ some pid)
        × IsOurs ps pid sn.executable
  unfolding recover
  recover-IsOurs not_found s r h = cc
  recover-IsOurs (load_error e) s r h = absurd (r h)
  recover-IsOurs (loaded sn) s r h =
      let (pid, stored, ours) = recover_snapshot-IsOurs sn sn.pid s h in
      (sn, pid, refl, stored, ours)
