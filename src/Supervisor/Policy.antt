-- ===== src/Supervisor/Policy.antt =====
-- src/internal/supervisor/policy.go: the restart policy and its backoff.
use blacktemple_kn.Prelude.{
  ℕ, zero, suc, Bool, ltb, if◌then◌else◌, ◌||◌, ◌*◌, Option, none, some, ℤ, pos, negsuc,
  nonpositive, magnitude,
}

-- float64, as far as the multiplier uses it. `scale d m` is `time.Duration(float64(d) * m)`.
pub record Floats : Type 1 where
  pub F : Type 0
  pub two : F
  pub below_one : F → Bool
  pub scale : ℕ → F → ℤ

-- Durations are counted in nanoseconds.
pub record RestartPolicy (F : Type 0) : Type 0 where
  pub max_restarts : ℤ
  pub window : ℤ
  pub initial_backoff : ℤ
  pub max_backoff : ℤ
  pub multiplier : F

abbrev pub millisecond : ℕ
millisecond = 1000000

abbrev pub second : ℕ
second = 1000000000

unfoldable pub default_restart_policy : (fl : Floats) → RestartPolicy fl.F
default_restart_policy fl = record {
  max_restarts = pos 5;
  window = pos (60 * second);
  initial_backoff = pos second;
  max_backoff = pos (30 * second);
  multiplier = fl.two;
}

-- One round of the loop of `Backoff`: `none` is its `return max`.
unfoldable pub grow : ℕ → ℕ → ℤ → Option ℕ
grow max d (pos next) = if ltb max next || ltb next d then none else some next
grow max d (negsuc n) = none

-- The loop, and the test behind it.
unfoldable pub backoff_loop : (fl : Floats) → fl.F → ℕ → ℕ → ℕ → ℕ
unfolding grow
backoff_loop fl mult max zero d = if ltb max d then max else d
backoff_loop fl mult max (suc rounds) d = elim (grow max d (fl.scale d mult)) [
  | none ↦ max
  | some next ↦ backoff_loop fl mult max rounds next
]

unfoldable pub first_delay : {F : Type 0} → RestartPolicy F → ℕ
first_delay p = if nonpositive p.initial_backoff then millisecond else magnitude p.initial_backoff

unfoldable pub delay_cap : {F : Type 0} → RestartPolicy F → ℕ
unfolding first_delay
delay_cap p = if nonpositive p.max_backoff then first_delay p else magnitude p.max_backoff

unfoldable pub effective_multiplier : (fl : Floats) → RestartPolicy fl.F → fl.F
effective_multiplier fl p = if fl.below_one p.multiplier then fl.two else p.multiplier

unfoldable pub delay : (fl : Floats) → RestartPolicy fl.F → ℕ → ℕ
unfolding first_delay delay_cap effective_multiplier
delay fl p crash_index =
    backoff_loop fl (effective_multiplier fl p) (delay_cap p) crash_index (first_delay p)
