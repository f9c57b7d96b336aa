-- ===== src/Supervisor/Recovery.antt =====
-- src/internal/supervisor/recover.go: what a new manager does with the snapshot of the last one.
use blacktemple_kn.Prelude.{
  ℕ, ◌+◌, ◌==◌, leb, ltb, Bool, false, not, ◌&&◌, ◌||◌, if◌then◌else◌, Option, none, some, [], ◌∷◌,
  map, ℤ, nonpositive, Text, codes, text_eq, is_empty,
}
use blacktemple_kn.Supervisor.States.{State, stopped, starting, running, failed, raw, same_state}
use blacktemple_kn.Supervisor.Record.{
  Snapshot, Supervisor, Identity, empty_snapshot, transition, persist, apply_identity, spawn_watch,
}

-- One letter for all that `strings.EqualFold` takes for the same. The long s and the Kelvin sign are
-- those of ASCII; `others` does it for the letters beyond ASCII.
abbrev pub fold_char : (ℕ → ℕ) → ℕ → ℕ
fold_char others c =
    if leb b'A' c && leb c b'Z'
    then c + 32
    else if c == 383
    then b's'
    else if c == 8490
    then b'k'
    else if ltb c 128
    then c
    else others c

unfoldable pub equal_fold : (ℕ → ℕ) → Text → Text → Bool
equal_fold others a b = text_eq (map (fold_char others) a) (map (fold_char others) b)

-- What stands behind the last slash or backslash; `acc` is what stands behind the last one so far.
unfoldable pub base_from : Text → Text → Text
base_from acc [] = acc
base_from acc (c ∷ cs) = if c == b'/' || c == b'\\' then base_from cs cs else base_from acc cs

-- `filepathBase` replaces each backslash by a slash, and takes what stands behind the last one.
unfoldable pub filepath_base : Text → Text
unfolding base_from
filepath_base p = base_from p p

unfoldable pub same_executable : (ℕ → ℕ) → Text → Text → Bool
unfolding equal_fold filepath_base
same_executable others a b =
    equal_fold others (filepath_base a) (filepath_base b) || equal_fold others a b

-- What the process table says of a pid, and what `Adopt` answers. `adopt` is `none` for a runner
-- that is no ProcessAdopter, and else the text of its error, if any. `fold_others` is the folding of
-- the letters beyond ASCII.
pub record Processes : Type 0 where
  pub alive : ℤ → Bool
  pub executable : ℤ → Option Text
  pub adopt : Option (ℤ → Option Text)
  pub fold_others : ℕ → ℕ

-- What `Load` of the store answers.
pub data Loaded : Type 0 where
  not_found : Loaded
  load_error : Text → Loaded
  loaded : Snapshot → Loaded

-- `if s.snap.PID == nil { s.snap.PID = &pid }`
unfoldable pub keep_pid : ℤ → Snapshot → Snapshot
keep_pid pid sn = record sn { pid = elim sn.pid [ none ↦ some pid | some p ↦ some p ] }

module _ {F : Type 0} where
  unfoldable pub mark_stale : Text → Supervisor F → Supervisor F
  unfolding persist
  mark_stale reason s = persist (record s {
    state = stopped;
    snap = record (s.snap) { state = stopped; pid = none; started_at = none; last_error = reason };
  })

  -- No usable pid: a child that had failed stays failed.
  unfoldable pub recover_idle : State → Supervisor F → Supervisor F
  unfolding persist same_state
  recover_idle before s =
      let now_in : State = (if same_state before failed then failed else stopped) in
      persist (record s {
        state = now_in;
        snap = record (s.snap) { state = now_in; pid = none; started_at = none };
      })

  unfoldable pub adopt_failed : ℕ → Text → Supervisor F → Supervisor F
  unfolding transition persist
  adopt_failed now e s =
      persist (
        transition now stopped (record s { snap = record (s.snap) { last_error = e; pid = none } }))

  unfoldable pub adopted : ℕ → ℤ → Option Identity → Supervisor F → Supervisor F
  unfolding transition persist apply_identity spawn_watch keep_pid
  adopted now pid id s =
      let t = record s {
        stop_requested = false;
        state = stopped;
        snap = record (s.snap) { last_error = []; state = stopped };
      } in
      let u = apply_identity id (transition now starting t) in
      spawn_watch (persist (transition now running (record u { snap = keep_pid pid u.snap })))

  unfoldable pub adopt_live :
      ℕ → Option (ℤ → Option Text) → Option Identity → ℤ → Supervisor F → Supervisor F
  adopt_live now none id pid s =
      mark_stale (codes "live pid not adopted: runner does not support Adopt") s
  adopt_live now (some adopt) id pid s = elim (adopt pid) [
    | some e ↦ adopt_failed now e s
    | none ↦ adopted now pid id s
  ]

  -- The chain of checks on a pid that the snapshot names.
  unfoldable pub recover_pid :
      ℕ → Processes → Option Identity → ℤ → Text → Supervisor F → Supervisor F
  recover_pid now ps id pid exe s =
      if not (ps.alive pid)
      then mark_stale (codes "stale pid: process not running") s
      else if is_empty exe
      then mark_stale (codes "stale pid: missing executable identity") s
      else elim (ps.executable pid) [
        | none ↦ mark_stale (codes "stale pid: executable identity unknown") s
        | some live ↦
            if not (same_executable ps.fold_others live exe)
            then mark_stale (codes "stale pid: executable identity mismatch") s
            else adopt_live now ps.adopt id pid s
      ]

  -- `s.snap = snap.clone()`, where an empty state reads STOPPED.
  unfoldable pub restored : Snapshot → Supervisor F → Supervisor F
  unfolding same_state
  restored sn s = record s {
    state = stopped;
    snap = if same_state sn.state (raw []) then record sn { state = stopped } else sn;
  }

  unfoldable pub recover_snapshot :
      ℕ → Processes → Option Identity → Snapshot → Option ℤ → Supervisor F → Supervisor F
  recover_snapshot now ps id sn none s = recover_idle sn.state (restored sn s)
  recover_snapshot now ps id sn (some pid) s =
      if nonpositive pid
      then recover_idle sn.state (restored sn s)
      else recover_pid now ps id pid sn.executable (restored sn s)

  -- `Recover` with no other operation between its stretches.
  unfoldable pub recover : ℕ → Processes → Option Identity → Loaded → Supervisor F → Supervisor F
  unfolding recover_snapshot
  recover now ps id not_found s = record s { state = stopped; snap = empty_snapshot }
  recover now ps id (load_error e) s = s
  recover now ps id (loaded sn) s = recover_snapshot now ps id sn sn.pid s
