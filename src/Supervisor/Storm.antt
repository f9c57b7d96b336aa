-- ===== src/Supervisor/Storm.antt =====
-- src/internal/supervisor: no restart storm. The crashes that the state machine keeps are those of
-- the window, and it starts a backoff only while there are no more of them than the policy allows.
use blacktemple_kn.Prelude.{
  ℕ, suc, ◌+◌, ◌≤◌, ◌==◌, leb, Bool, false, ◌≡◌, refl, ◌∙◌, ap, ◌⊎◌, inl, inr, Option, List, [],
  ◌∷◌, ◌++◌, arith, length, keep, keep-append, length-keep-le, if◌then◌else◌, pos, Text,
}
use mathlib.Core.List.{append-nil, append_assoc}
use blacktemple_kn.Supervisor.States.{backoff}
use blacktemple_kn.Supervisor.Policy.{Floats, RestartPolicy}
use blacktemple_kn.Supervisor.Record.{Supervisor, new}
use blacktemple_kn.Supervisor.Regions.{
  start_begin, start_failed, start_end, start_abandoned, stop_begin, stop_end, reload_begin,
  reload_cancelled, on_child_exit, backoff_begin, backoff_end, exhausted,
}
use blacktemple_kn.Supervisor.Interleaving.{
  Region, start_begins, start_fails, start_ends, start_is_abandoned, stop_begins, stop_ends,
  reload_begins, reload_is_cancelled, child_exits, backoff_begins, backoff_ends, run_region, run,
}
use blacktemple_kn.Supervisor.Invariant.{new-Inv, run_from-Inv}

-- What the clock shows.
abbrev pub time_of : Region → ℕ
time_of (start_begins now) = now
time_of (start_fails now e) = now
time_of (start_ends now id) = now
time_of (start_is_abandoned now) = now
time_of (stop_begins now) = now
time_of (stop_ends now) = now
time_of (reload_begins now) = now
time_of (reload_is_cancelled now) = now
time_of (child_exits now gen e) = now
time_of (backoff_begins now gen) = now
time_of (backoff_ends now gen id) = now

-- The clock does not go back, and shows `last` at the end.
abbrev pub Clock : ℕ → List Region → ℕ → Type 0
Clock now [] last = now ≤ last
Clock now (r ∷ rs) last = (now ≤ time_of r) × Clock (time_of r) rs last

-- The times at which the restart counter went up.
unfoldable pub counted : (fl : Floats) → List Region → Supervisor fl.F → List ℕ
counted fl [] s = []
counted fl (r ∷ rs) s =
    let t = run_region fl r s in
    let later = counted fl rs t in
    if t.snap.restart_count == s.snap.restart_count then later else time_of r ∷ later

abbrev pub in_window : ℕ → ℕ → ℕ → Bool
in_window w now t = leb now (t + w)

-- A stretch of code counts no crash, or one at the time of the clock and keeps those of the window.
abbrev Counts : {F : Type 0} → ℕ → ℕ → Supervisor F → Supervisor F → Type 0
Counts w now s t =
    ((t.snap.restart_count ≡ s.snap.restart_count) × (t.crashes ≡ s.crashes))
    ⊎ ((t.snap.restart_count ≡ suc s.snap.restart_count)
        × (t.crashes ≡ keep (in_window w now) (s.crashes ++ now ∷ [])))

module _ (fl : Floats) (w : ℕ) where
  child_exits-Counts :
      (now gen : ℕ) (e : Option Text) (s : Supervisor fl.F)
      → s.policy.window ≡ pos (suc w)
      → Counts (suc w) now s (on_child_exit fl now gen e s).0
  unfolding on_child_exit
  child_exits-Counts now gen e s h = ground arith

  run_region-Counts :
      (r : Region) (s : Supervisor fl.F)
      → s.policy.window ≡ pos (suc w)
      → Counts (suc w) (time_of r) s (run_region fl r s)
  unfolding run_region start_begin start_failed start_end start_abandoned stop_begin stop_end
      reload_begin reload_cancelled backoff_begin backoff_end
  run_region-Counts (child_exits now gen e) s h = child_exits-Counts now gen e s h
  run_region-Counts (start_begins now) s h = ground arith
  run_region-Counts _ s h = ground arith

module _ (fl : Floats) where
  run_region-policy : (r : Region) (s : Supervisor fl.F) → (run_region fl r s).policy ≡ s.policy
  unfolding run_region start_begin start_failed start_end start_abandoned stop_begin stop_end
      reload_begin reload_cancelled backoff_begin backoff_end on_child_exit
  run_region-policy (start_begins now) s = ground arith
  run_region-policy _ s = ground arith

module _ (w : ℕ) where
  keep_later :
      (early late : ℕ) (ts : List ℕ)
      → early ≤ late
      → keep (in_window w late) (keep (in_window w early) ts) ≡ keep (in_window w late) ts
  keep_later early late [] h = refl
  keep_later early late (t ∷ ts) h = ground (arith, keep_later early late ts)

  -- The crashes of the history `ts` that a later window may hold are those that `kept` has.
  abbrev Agrees : ℕ → List ℕ → List ℕ → Type 0
  Agrees now ts kept =
      (late : ℕ) → now ≤ late → keep (in_window w late) ts ≡ keep (in_window w late) kept

  Agrees-counted :
      (now moment : ℕ) (ts kept : List ℕ)
      → now ≤ moment
      → Agrees now ts kept
      → Agrees moment (ts ++ moment ∷ []) (keep (in_window w moment) (kept ++ moment ∷ []))
  Agrees-counted now moment ts kept h a late l =
      rw (keep_later moment late (kept ++ moment ∷ []) l) (
        rw (keep-append (in_window w late) ts, keep-append (in_window w late) kept)
          (rw (a late (omega arith))))

module _ (fl : Floats) (r : Region) (rs : List Region) (s : Supervisor fl.F) where
  counted_same :
      (run_region fl r s).snap.restart_count ≡ s.snap.restart_count
      → counted fl (r ∷ rs) s ≡ counted fl rs (run_region fl r s)
  unfolding counted
  counted_same h = ground arith

  counted_more :
      (run_region fl r s).snap.restart_count ≡ suc s.snap.restart_count
      → counted fl (r ∷ rs) s ≡ time_of r ∷ counted fl rs (run_region fl r s)
  unfolding counted
  counted_more h = ground arith

module _ (fl : Floats) (w : ℕ) where
  counted-Agrees :
      (rs : List Region) (s : Supervisor fl.F) (ts : List ℕ) (now last : ℕ)
      → s.policy.window ≡ pos (suc w)
      → Clock now rs last
      → Agrees (suc w) now ts s.crashes
      → Agrees (suc w) last (ts ++ counted fl rs s) (run fl rs s).crashes
  unfolding run
  counted-Agrees [] s ts now last p c a =
      λ late l. unfold counted in rw append-nil (a late (omega arith))
  counted-Agrees (r ∷ rs) s ts now last p c a = elim (run_region-Counts fl w r s p) [
    | inl (same, kept) ↦ rw (counted_same fl r rs s same) (
        counted-Agrees rs (run_region fl r s) ts (time_of r) last
          (ap (λ q. q.window) (run_region-policy fl r s) ∙ p) c.1
          (rw kept λ late l. a late (omega arith)))
    | inr (more, kept) ↦
        rw (counted_more fl r rs s more, ← append_assoc ts (time_of r ∷ []))
          (counted-Agrees rs (run_region fl r s) (ts ++ time_of r ∷ []) (time_of r) last
            (ap (λ q. q.window) (run_region-policy fl r s) ∙ p) c.1
            (rw kept (Agrees-counted (suc w) now (time_of r) ts s.crashes c.0 a)))
  ]

run-policy :
    (fl : Floats) (rs : List Region) (s : Supervisor fl.F) → (run fl rs s).policy ≡ s.policy
unfolding run
run-policy fl [] s = refl
run-policy fl (r ∷ rs) s = run-policy fl rs (run_region fl r s) ∙ run_region-policy fl r s

-- Take a policy with a window of w + 1 and a limit of n restarts, and any schedule of a new
-- supervisor by a clock that does not go back. If it ends in BACKOFF, which is how an automatic
-- restart begins, then at most n of the crashes that were counted lie in the window that ends now.
pub no_restart_storm :
    (fl : Floats) (p : RestartPolicy fl.F) (w n : ℕ) (rs : List Region) (last : ℕ)
    → p.window ≡ pos (suc w)
    → p.max_restarts ≡ pos n
    → Clock 0 rs last
    → (run fl rs (new p)).state ≡ backoff
    → length (keep (in_window (suc w) last) (counted fl rs (new p))) ≤ n
unfolding new
no_restart_storm fl p w n rs last pw pn c b =
    let s = run fl rs (new p) in
    let agrees : Agrees (suc w) last (counted fl rs (new p)) s.crashes =
      counted-Agrees fl w rs (new p) [] 0 last pw c (λ late l. refl) in
    let within : exhausted p.max_restarts (length s.crashes) ≡ false =
      rw (run-policy fl rs (new p)) at
        ((run_from-Inv fl rs (new p) (new-Inv p)).backoff_within b) in
    rw (agrees last (omega arith)) (
      unfold exhausted in ground (arith, length-keep-le (in_window (suc w) last) s.crashes, within))
