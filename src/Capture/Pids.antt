-- ===== src/Capture/Pids.antt =====
-- src/internal/routing/preflight.go: the loop of `parseListenPIDs` ends.
use blacktemple_kn.Prelude.{
  ℕ, zero, suc, ◌+◌, ◌≤◌, ◌<◌, List, [], ◌∷◌, length, Text, codes, none, some, ◌≡◌, arith,
  Option-cases, inl, inr,
}
use blacktemple_kn.Strings.{after_prefix}
use blacktemple_kn.Capture.Probes.{after_first, pids_in, add_pid, leading_digits}

after_prefix-length :
    (t p rest : Text) → after_prefix t p ≡ some rest → length rest + length p ≡ length t
unfolding after_prefix
after_prefix-length t [] rest h = ground (arith, h)
after_prefix-length [] (q ∷ qs) rest h = ground (arith, h)
after_prefix-length (c ∷ cs) (q ∷ qs) rest h = ground (arith, h, after_prefix-length cs qs rest)

after_first-length :
    (word t rest : Text) → after_first word t ≡ some rest → length rest + length word ≤ length t
unfolding after_first
after_first-length word [] rest h =
    let whole = after_prefix-length [] word rest h in omega (arith, whole)
after_first-length word (c ∷ cs) rest h = elim (Option-cases (after_prefix (c ∷ cs) word)) [
  | inr (r, e) ↦ let whole = after_prefix-length (c ∷ cs) word r e in ground (arith, h, e, whole)
  | inl e ↦ ground (arith, h, e, after_first-length word cs rest)
]

-- The loop ends on the line with `found`: a round that finds no further word is the last, and one
-- that finds a word goes on with what stands behind it.
pub data Ends : Text → List ℕ → List ℕ → Type 0 where
  last_round :
      (line : Text) (pids : List ℕ) → after_first (codes "pid=") line ≡ none → Ends line pids pids
  next_round :
      (line rest : Text) (pids found : List ℕ)
      → after_first (codes "pid=") line ≡ some rest
      → Ends rest (add_pid (leading_digits rest) pids) found
      → Ends line pids found

within-Ends :
    (rounds : ℕ) (line : Text) (pids : List ℕ)
    → length line < rounds
    → Ends line pids (pids_in rounds line pids)
unfolding pids_in
within-Ends zero line pids h = ground (arith, h)
within-Ends (suc rounds) line pids h = elim (Option-cases (after_first (codes "pid=") line)) [
  | inl e ↦ rw (pids_in, e) (last_round line pids e)
  | inr (rest, e) ↦
      let shorter = after_first-length (codes "pid=") line rest e in
      rw (pids_in, e)
        (next_round line rest pids _ e (
          within-Ends rounds rest (add_pid (leading_digits rest) pids) (omega (arith, shorter, h))))
]

-- On every line the loop comes to an end after finitely many rounds, with the pids that the bounded
-- one gives on one round more than the line is long.
pub pids_in-Ends :
    (line : Text) (pids : List ℕ) → Ends line pids (pids_in (suc (length line)) line pids)
pids_in-Ends line pids = within-Ends (suc (length line)) line pids (omega arith)
