-- ===== src/Examples/Capturing.antt =====
-- The theorems of the capture engine at concrete inputs.
use blacktemple_kn.Prelude.{
  ℕ, suc, ◌==◌, Bool, true, false, not, ◌&&◌, ◌≡◌, refl, if◌then◌else◌, none, some, is_some, List,
  [], ◌∷◌, ◌++◌, codes, All,
}
use blacktemple_kn.Netip.Addr.{Addr, v4}
use blacktemple_kn.Capture.Commands.{Argv, install_commands, remove_commands}
use blacktemple_kn.Capture.Engine.{Engine, new_engine, validate_client}
use blacktemple_kn.Capture.Preflight.{Host, preflight}
use blacktemple_kn.Capture.Lifecycle.{apply, remove, reconcile, run_removal}
use blacktemple_kn.Capture.Owned.{is_owned, commands-IsOwned}
use blacktemple_kn.Capture.Safety.{all_run, reconcile-applied}
use blacktemple_kn.Capture.Outcomes.{apply_rolls_back}
use blacktemple_kn.Capture.Verified.{AllRemoved, SeesNothing, remove-SeesNothing}

-- 192.168.1.7
abbrev client : Addr
client = v4 0xc0a80107

-- The machine is the number of commands so far; the one at the number has an error.
abbrev failing_at : (ℕ → Bool) → Host ℕ
failing_at fails = record {
  run = λ w c.
      (suc w, record { out = []; err = if fails w then some (codes "exit status 1") else none });
  allow = λ a. none;
  over = λ w. none;
}

abbrev quiet : Host ℕ
quiet = failing_at (λ w. false)

abbrev broken : Host ℕ
broken = failing_at (λ w. w == 8)

abbrev engine : Engine
engine = new_engine client

abbrev first_two : List Argv → List Argv
first_two (a ∷ b ∷ cs) = a ∷ b ∷ []
first_two _ = []

abbrev third : List Argv → Argv
third (a ∷ b ∷ c ∷ cs) = c
third _ = record { name = []; args = [] }

abbrev from_fourth : List Argv → List Argv
from_fourth (a ∷ b ∷ c ∷ cs) = cs
from_fourth _ = []

commands-IsOwned_example : All (λ c. is_owned c ≡ true) (install_commands client ++ remove_commands)
commands-IsOwned_example = commands-IsOwned client

reconcile-applied_example :
    (reconcile broken true engine 0).1.applied
    ≡ true && not (is_some (reconcile broken true engine 0).2)
reconcile-applied_example = reconcile-applied broken true engine 0

all_commands : all_run quiet (install_commands client) 6 ≡ some 45
unfolding all_run install_commands
all_commands = refl

split :
    install_commands client
    ≡ first_two (install_commands client)
      ++ third (install_commands client) ∷ from_fourth (install_commands client)
unfolding install_commands
split = refl

two_run : all_run broken (first_two (install_commands client)) 6 ≡ some 8
unfolding all_run install_commands
two_run = refl

apply_rolls_back_example :
    ((apply broken engine 0).0 ≡ (remove broken engine 9).0)
    × ((apply broken engine 0).1.applied ≡ false)
    × (is_some (apply broken engine 0).2 ≡ true)
unfolding validate_client new_engine preflight
apply_rolls_back_example =
    apply_rolls_back broken engine 0 6 8 9 (first_two (install_commands client))
      (from_fourth (install_commands client)) (third (install_commands client))
      (record { out = []; err = some (codes "exit status 1") }) (codes "exit status 1")
      (refl, refl, refl, refl) split two_run refl refl

removed : (remove quiet engine 0).2 ≡ none
unfolding remove
removed = refl

remove-SeesNothing_example :
    ((remove quiet engine 0).1.applied ≡ false)
    × AllRemoved quiet remove_commands 0 (run_removal quiet remove_commands 0).0
    × SeesNothing quiet (run_removal quiet remove_commands 0).0
remove-SeesNothing_example = remove-SeesNothing quiet engine 0 removed
