-- ===== src/Capture/Engine.antt =====
-- src/internal/routing/hybrid.go: `HybridIptablesEngine`. The executor is a function on a state `W`
-- of the machine, which stands for everything that its commands read and change; what the policy
-- guard finds is a function too.
use blacktemple_kn.Prelude.{
  ◌⊎◌, inl, inr, Bool, true, false, not, ◌&&◌, ◌||◌, if◌then◌else◌, Option, none, some, is_some,
  List, [], ◌∷◌, ◌++◌, any, Text, codes, text_eq, is_empty, ℤ, pos,
}
use blacktemple_kn.Strings.{to_lower, trim_space, contains, split, fields}
use blacktemple_kn.Netip.Addr.{Addr, is_4, is_unspecified, is_valid_addr}
use blacktemple_kn.Capture.Commands.{
  Argv, CapturePlan, iptables, ipcmd, install_commands, remove_commands,
}

-- What a command answers: its output, and the text of its error, if there is one.
pub record Output : Type 0 where
  pub out : Text
  pub err : Option Text

-- Why the removal is not complete.
pub data Leftover : Type 0 where
  unverified : Text → Leftover
  jumps mark_rule routes_left : Leftover

-- `incomplete` is every error that wraps ErrCleanupIncomplete, with the errors of the commands and
-- what the verification found.
pub data Error : Type 0 where
  client_required existing_capture_engine capture_collision : Error
  refused preflight_failed command : Text → Error
  incomplete : List Text → Option Leftover → Error
  join : Error → Error → Error

pub data XkeenPresence : Type 0 where
  absent live residual : XkeenPresence

pub data CollisionKind : Type 0 where
  mark table port chain xkeen : CollisionKind

pub record Collision : Type 0 where
  pub kind : CollisionKind
  pub detail : Text

-- IPv6Capture is the same in every report, and is left out.
pub record PreflightReport : Type 0 where
  pub ok : Bool
  pub collisions : List Collision
  pub xkeen_active : Bool
  pub xkeen_state : XkeenPresence

pub record ExpectedListener : Type 0 where
  pub executable : Text
  pub pid : ℤ

pub record Engine : Type 0 where
  pub client : Addr
  pub applied : Bool
  pub expected : ExpectedListener

abbrev pub our_xray_executable : Text
our_xray_executable = codes "/opt/blacktemple-kn/bin/xray"

-- `NewHybridIptablesEngine`, given an executor.
unfoldable pub new_engine : Addr → Engine
new_engine client = record {
  client = client;
  applied = false;
  expected = record { executable = our_xray_executable; pid = pos 0 };
}

unfoldable pub set_expected_listener : ExpectedListener → Engine → Engine
set_expected_listener l e = record e {
  expected = if is_empty l.executable then record l { executable = our_xray_executable } else l;
}

unfoldable pub validate_client : Addr → Option Error
unfolding is_valid_addr is_4 is_unspecified
validate_client a =
    if not (is_valid_addr a) || not (is_4 a) || is_unspecified a then some client_required else none

unfoldable pub plan : Engine → Error ⊎ CapturePlan
unfolding validate_client install_commands remove_commands
plan e = elim (validate_client e.client) [
  | some f ↦ inl f
  | none ↦ inr (record { install = install_commands e.client; uninstall = remove_commands })
]

-- Is one of the words in the message?
unfoldable pub has_word : Text → List Text → Bool
unfolding contains
has_word msg ws = any (λ w. contains msg w) ws

unfoldable pub error_text : Option Text → Text
error_text none = []
error_text (some e) = e

unfoldable pub is_absent_object_failure : Output → Bool
unfolding has_word error_text to_lower trim_space
is_absent_object_failure o =
    is_some o.err
    && has_word (to_lower (trim_space (o.out ++ (codes "\n" ++ error_text o.err)))) (
        codes "bad rule"
        ∷ codes "no chain/target/match"
        ∷ codes "no matching rule"
        ∷ codes "does not exist"
        ∷ codes "set not found"
        ∷ codes "no such file or directory"
        ∷ codes "no such file"
        ∷ codes "fib table does not exist"
        ∷ codes "no such process"
        ∷ [])

unfoldable pub is_table_absent : Output → Bool
unfolding has_word to_lower trim_space
is_table_absent o =
    let msg = to_lower (trim_space o.out) in
    let whole : Text = (elim o.err [ none ↦ msg | some e ↦ to_lower (e ++ (codes " " ++ msg)) ]) in
    has_word whole (
      codes "does not exist"
      ∷ codes "no such file"
      ∷ codes "fib table does not exist"
      ∷ codes "no such process"
      ∷ codes "can't find table"
      ∷ codes "cannot find device"
      ∷ [])

unfoldable pub table_still_present : Output → Bool
unfolding is_table_absent trim_space
table_still_present o =
    if is_table_absent o
    then false
    else if is_some o.err
    then true
    else not (is_empty (trim_space o.out))

unfoldable pub owned_mark_rule_present : Text → Bool
unfolding contains to_lower
owned_mark_rule_present rules =
    contains (to_lower rules) (codes "0x42544b4e") && contains rules (codes "4254")

-- Do the words begin with the sequence?
unfoldable pub starts_with : List Text → List Text → Bool
starts_with ws [] = true
starts_with [] (q ∷ qs) = false
starts_with (w ∷ ws) (q ∷ qs) = text_eq w q && starts_with ws qs

-- `len(seq) == 0` is false in every call.
unfoldable pub has_seq : List Text → List Text → Bool
unfolding starts_with
has_seq [] seq = false
has_seq (w ∷ ws) seq = starts_with (w ∷ ws) seq || has_seq ws seq

unfoldable pub jump_present : Text → Text → Text → Bool
unfolding has_seq split fields
jump_present rules from jump =
    any (λ line. has_seq (fields line) (codes "-A" ∷ from ∷ codes "-j" ∷ jump ∷ []))
      (split rules b'\n')

-- What the four queries of `verifyRemoved` show, once the first three have no error.
unfoldable pub leftover : Output → Output → Output → Output → Option Leftover
unfolding jump_present owned_mark_rule_present table_still_present
leftover nat mangle rules routes =
    if jump_present nat.out (codes "PREROUTING") (codes "BTKN_PRE")
      || jump_present mangle.out (codes "PREROUTING") (codes "BTKN_PRE")
    then some jumps
    else if owned_mark_rule_present rules.out
    then some mark_rule
    else if table_still_present routes
    then some routes_left
    else none

abbrev pub list_nat : Argv
list_nat = iptables "-t nat -S"

abbrev pub list_mangle : Argv
list_mangle = iptables "-t mangle -S"

abbrev pub show_rules : Argv
show_rules = ipcmd "-4 rule show"

abbrev pub show_table : Argv
show_table = ipcmd "-4 route show table 4254"
