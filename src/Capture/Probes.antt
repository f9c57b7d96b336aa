-- ===== src/Capture/Probes.antt =====
-- src/internal/routing/preflight.go: what the outputs of the probes say.
use blacktemple_kn.Prelude.{
  ℕ, zero, suc, ◌/◌, ◌%◌, ◌+◌, ◌-◌, ltb, leb, ◌==◌, Bool, true, false, not, ◌&&◌, ◌||◌,
  if◌then◌else◌, Option, none, some, is_some, List, [], ◌∷◌, ◌++◌, any, length, Text, codes,
  text_eq, is_empty, ◌^◌,
}
use blacktemple_kn.Strings.{to_lower, trim_space, contains, split, fields, after_prefix}
use blacktemple_kn.Strings.Decimal.{decimal, atoi, is_digit}
use blacktemple_kn.Supervisor.Recovery.{equal_fold}
use blacktemple_kn.Capture.Engine.{
  Output, XkeenPresence, absent, live, residual, ExpectedListener, our_xray_executable,
  is_table_absent, has_seq, has_word,
}

-- Two texts with a line break between them.
abbrev pub lines_of : Text → Text → Text
lines_of a b = a ++ (b'\n' ∷ b)

unfoldable pub mark_in_use : Text → Bool
unfolding contains to_lower
mark_in_use s = contains (to_lower s) (codes "0x42544b4e") || contains s (codes "1112820558")

unfoldable pub table_in_use : Output → Bool
unfolding is_table_absent trim_space
table_in_use o =
    if is_table_absent o
    then false
    else if is_some o.err
    then false
    else not (is_empty (trim_space o.out))

unfoldable pub looks_like_proc_net : Text → Bool
unfolding contains
looks_like_proc_net s = contains s (codes "local_address") || contains s (codes " rem_address")

-- A digit as `%X` prints it.
abbrev hex_digit : ℕ → ℕ
hex_digit d = if ltb d 10 then b'0' + d else b'A' + d - 10

-- `%04X` of a port.
unfoldable pub hex_port : ℕ → Text
hex_port p =
    hex_digit (p / 4096 % 16)
    ∷ hex_digit (p / 256 % 16)
    ∷ hex_digit (p / 16 % 16)
    ∷ hex_digit (p % 16)
    ∷ []

-- What stands behind the last colon.
unfoldable pub after_last_colon : Text → Option Text
after_last_colon [] = none
after_last_colon (c ∷ cs) = elim (after_last_colon cs) [
  | some rest ↦ some rest
  | none ↦ if c == b':' then some cs else none
]

-- Does the line show the port as the local one?
unfoldable pub shows_hex_port : ℕ → List Text → Bool
unfolding after_last_colon hex_port equal_fold
shows_hex_port port (sl ∷ local ∷ rest) =
    if text_eq sl (codes "sl") then false else (elim (after_last_colon local) [
      | none ↦ false
      | some shown ↦ equal_fold (λ c. c) shown (hex_port port)
    ])
shows_hex_port port _ = false

unfoldable pub proc_net_hex_port_open : Text → ℕ → Bool
unfolding shows_hex_port split fields
proc_net_hex_port_open s port = any (λ line. shows_hex_port port (fields line)) (split s b'\n')

unfoldable pub listen_port_used : Text → ℕ → Bool
unfolding looks_like_proc_net proc_net_hex_port_open contains trim_space decimal
listen_port_used s port =
    if is_empty (trim_space s)
    then false
    else if looks_like_proc_net s
    then proc_net_hex_port_open s port
    else contains s (b':' ∷ decimal port)
      || contains s (codes "--to-ports " ++ decimal port)
      || contains s (codes "--on-port " ++ decimal port)

-- What stands behind the first occurrence of the word.
unfoldable pub after_first : Text → Text → Option Text
unfolding after_prefix
after_first word [] = after_prefix [] word
after_first word (c ∷ cs) =
    let later = after_first word cs in
    elim (after_prefix (c ∷ cs) word) [ some rest ↦ some rest | none ↦ later ]

-- The digits that a text starts with.
unfoldable pub leading_digits : Text → Text
leading_digits [] = []
leading_digits (c ∷ cs) = if is_digit c then c ∷ leading_digits cs else []

-- A pid that is positive, fits an int and is new goes behind the others.
unfoldable pub add_pid : Text → List ℕ → List ℕ
unfolding atoi
add_pid digits pids = elim (atoi digits) [
  | none ↦ pids
  | some pid ↦
      if pid == 0 || leb (2 ^ 63) pid || any (λ p. p == pid) pids then pids else pids ++ pid ∷ []
]

-- The loop over one line. Each round takes at least the word away, so that as many rounds as there
-- are characters are enough.
unfoldable pub pids_in : ℕ → Text → List ℕ → List ℕ
unfolding after_first add_pid leading_digits
pids_in zero line pids = pids
pids_in (suc rounds) line pids = elim (after_first (codes "pid=") line) [
  | none ↦ pids
  | some rest ↦ pids_in rounds rest (add_pid (leading_digits rest) pids)
]

unfoldable pub pids_of_lines : ℕ → List Text → List ℕ → List ℕ
unfolding pids_in contains decimal
pids_of_lines port [] pids = pids
pids_of_lines port (l ∷ ls) pids =
    let here = pids_in (suc (length l)) l pids in
    pids_of_lines port ls (
      if contains l (b':' ∷ decimal port) || contains l (codes "*:" ++ decimal port)
      then here
      else pids)

unfoldable pub parse_listen_pids : Text → ℕ → List ℕ
unfolding listen_port_used pids_of_lines split
parse_listen_pids s port =
    if listen_port_used s port then pids_of_lines port (split s b'\n') [] else []

unfoldable pub port_occupied_foreign : Text → List Text → ℕ → ExpectedListener → Bool
unfolding listen_port_used
port_occupied_foreign listen owners port expected =
    let exe = (if is_empty expected.executable then our_xray_executable else expected.executable) in
    if not (listen_port_used listen port)
    then false
    else length owners == 0 || any (λ o. not (text_eq o exe)) owners

unfoldable pub btkn_chains_present : Text → Text → Bool
unfolding has_word
btkn_chains_present nat mangle =
    has_word (lines_of nat mangle)
      (codes "BTKN_PRE" ∷ codes "BTKN_TCP" ∷ codes "BTKN_UDP" ∷ codes "BTKN_OUT" ∷ [])

unfoldable pub xkeen_effective_capture : Text → Text → Text → Bool
unfolding contains split fields has_seq to_lower
xkeen_effective_capture nat mangle rules =
    let blob = lines_of nat mangle in
    if contains blob (codes "--to-ports 1181") || contains blob (codes "--on-port 1181")
    then true
    else if any
        (λ line.
          has_seq (fields line) (codes "-A" ∷ codes "PREROUTING" ∷ codes "-j" ∷ codes "xkeen" ∷ []))
        (split blob b'\n')
    then true
    else contains (to_lower rules) (codes "0x111") && contains rules (codes " lookup 111")

-- The output of `pidof` counts where it had no error.
unfoldable pub classify_xkeen : Text → Text → Text → Output → Text → XkeenPresence
unfolding listen_port_used trim_space xkeen_effective_capture
classify_xkeen nat mangle listen pidof rules =
    if listen_port_used listen 1181
      || (not (is_some pidof.err) && not (is_empty (trim_space pidof.out)))
    then live
    else if xkeen_effective_capture nat mangle rules
    then residual
    else absent
