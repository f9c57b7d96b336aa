-- ===== src/Examples/Refused.antt =====
-- The theorems on refused captures and on the probes at concrete inputs.
use blacktemple_kn.Prelude.{
  length, suc, ℕ, suc, ◌&&◌, any, if◌then◌else◌, none, some, List, [], ◌∷◌, codes, Text, text_eq,
  ◌≡◌, refl,
}
use blacktemple_kn.Netip.Addr.{v4}
use blacktemple_kn.Capture.Commands.{Argv}
use blacktemple_kn.Capture.Engine.{Output, preflight_failed, Engine, new_engine}
use blacktemple_kn.Capture.Preflight.{Host, read_exe}
use blacktemple_kn.Capture.Lifecycle.{apply}
use blacktemple_kn.Capture.Probes.{pids_in}
use blacktemple_kn.Capture.Refusal.{
  is_refusal, IsQuery, of_nat, of_mangle, of_rules, of_table, of_sockets, of_tcp, of_udp, of_xkeen,
  of_exe, apply_refused-same,
}
use blacktemple_kn.Capture.Pids.{Ends, pids_in-Ends}

-- 192.168.1.7
abbrev engine : Engine
engine = new_engine (v4 0xc0a80107)

-- The words of the commands that change something.
abbrev changing : List Text
changing =
    codes "-N"
    ∷ codes "-A"
    ∷ codes "-I"
    ∷ codes "-F"
    ∷ codes "-X"
    ∷ codes "-D"
    ∷ codes "add"
    ∷ codes "del"
    ∷ codes "create"
    ∷ codes "flush"
    ∷ codes "destroy"
    ∷ codes "replace"
    ∷ []

-- The machine is the number of those commands so far; the rules of mangle cannot be listed.
abbrev counting : Host ℕ
counting = record {
  run = λ w c. (
    if any (λ word. any (text_eq word) changing) c.args then suc w else w,
    record {
      out = [];
      err =
          if any (text_eq (codes "mangle")) c.args && any (text_eq (codes "-S")) c.args
          then some (codes "exit status 1")
          else none;
    },
  );
  allow = λ a. none;
  over = λ w. none;
}

counting-reads : (c : Argv) (w : ℕ) → IsQuery c → (counting.run w c).0 ≡ w
unfolding text_eq read_exe
counting-reads c w of_nat = refl
counting-reads c w of_mangle = refl
counting-reads c w of_rules = refl
counting-reads c w of_table = refl
counting-reads c w of_sockets = refl
counting-reads c w of_tcp = refl
counting-reads c w of_udp = refl
counting-reads c w of_xkeen = refl
counting-reads c w (of_exe pid) = refl

apply_refused-same_example : (apply counting engine 7).0 ≡ 7
unfolding apply new_engine text_eq is_refusal
apply_refused-same_example =
    apply_refused-same counting counting-reads engine 7 (preflight_failed (codes "exit status 1"))
      refl refl

abbrev silent : Output
silent = record { out = []; err = none }

abbrev line : Text
line = codes "users:((\"xray\",pid=812,fd=3))"

pids_in-Ends_example : Ends line [] (pids_in (suc (length line)) line [])
pids_in-Ends_example = pids_in-Ends line []

one_pid : pids_in (suc (length line)) line [] ≡ 812 ∷ []
unfolding pids_in
one_pid = refl
