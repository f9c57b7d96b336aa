-- ===== src/Supervisor/Backoff.antt =====
-- src/internal/supervisor/policy.go: the bounds of the backoff, whatever the multiplier does.
use blacktemple_kn.Prelude.{
  ℕ, zero, suc, ◌≤◌, ◌≡◌, inl, inr, some, arith, Option-cases, ℤ, pos, negsuc,
}
use blacktemple_kn.Supervisor.Policy.{
  Floats, RestartPolicy, grow, backoff_loop, first_delay, delay_cap, effective_multiplier, delay,
}

grow_bounds : (max d : ℕ) (z : ℤ) (next : ℕ) → grow max d z ≡ some next → (d ≤ next) × (next ≤ max)
unfolding grow
grow_bounds max d (pos n) next h = ground arith
grow_bounds max d (negsuc n) next h = ground arith

module _ (fl : Floats) (m : fl.F) (max : ℕ) where
  loop-le : (rounds d : ℕ) → backoff_loop fl m max rounds d ≤ max
  unfolding backoff_loop
  loop-le zero d = ground arith
  loop-le (suc rounds) d = elim (Option-cases (grow max d (fl.scale d m))) [
    | inl e ↦ rw (e, backoff_loop) (omega arith)
    | inr (next, e) ↦ rw (e, backoff_loop) (loop-le rounds next)
  ]

  le-loop : (rounds d : ℕ) → d ≤ max → d ≤ backoff_loop fl m max rounds d
  unfolding backoff_loop
  le-loop zero d h = ground arith
  le-loop (suc rounds) d h = elim (Option-cases (grow max d (fl.scale d m))) [
    | inl e ↦ rw (e, backoff_loop) h
    | inr (next, e) ↦
        let b = grow_bounds max d (fl.scale d m) next e in
        rw (e, backoff_loop) (omega (arith, le-loop rounds next b.1))
  ]

  loop-suc-le :
      (rounds d : ℕ) → backoff_loop fl m max rounds d ≤ backoff_loop fl m max (suc rounds) d
  unfolding backoff_loop
  loop-suc-le zero d = elim (Option-cases (grow max d (fl.scale d m))) [
    | inl e ↦ rw (e, backoff_loop) (ground arith)
    | inr (next, e) ↦
        let b = grow_bounds max d (fl.scale d m) next e in rw (e, backoff_loop) (ground (arith, b))
  ]
  loop-suc-le (suc rounds) d = elim (Option-cases (grow max d (fl.scale d m))) [
    | inl e ↦ rw (e, backoff_loop) (omega arith)
    | inr (next, e) ↦ rw (e, backoff_loop) (loop-suc-le rounds next)
  ]

module _ (fl : Floats) (p : RestartPolicy fl.F) where
  -- The delay never passes the cap, it never falls as crashes add up, and where the first delay is
  -- within the cap no delay is below the first one. Nothing is assumed of the multiplication of
  -- float64, which may round and overflow.
  pub delay_bounds :
      (crash_index : ℕ)
      → (delay fl p crash_index ≤ delay_cap p)
        × (delay fl p crash_index ≤ delay fl p (suc crash_index))
        × (first_delay p ≤ delay_cap p → first_delay p ≤ delay fl p crash_index)
  unfolding delay
  delay_bounds n = (
    loop-le fl (effective_multiplier fl p) (delay_cap p) n (first_delay p),
    loop-suc-le fl (effective_multiplier fl p) (delay_cap p) n (first_delay p),
    le-loop fl (effective_multiplier fl p) (delay_cap p) n (first_delay p),
  )
