-- ===== src/Capture/Owned.antt =====
-- src/internal/routing/hybrid_plan.go: which objects of the machine the commands touch.
use blacktemple_kn.Prelude.{
  Bool, true, false, ◌&&◌, ◌||◌, if◌then◌else◌, not, any, List, [], ◌∷◌, ◌++◌, All, every-All, Text,
  codes, text_eq, ◌≡◌, refl,
}
use blacktemple_kn.Netip.Addr.{Addr}
use blacktemple_kn.Capture.Commands.{
  Argv, install_commands, prepare_commands, attach_commands, remove_commands,
}

abbrev is_word : Text → List Text → Bool
is_word w ws = any (text_eq w) ws

-- Is this a chain of ours?
abbrev is_owned_chain : Text → Bool
is_owned_chain c =
    is_word c (codes "BTKN_PRE" ∷ codes "BTKN_TCP" ∷ codes "BTKN_UDP" ∷ codes "BTKN_OUT" ∷ [])

-- Is this just a jump to our first chain?
abbrev is_jump : List Text → Bool
is_jump (flag ∷ target ∷ []) = text_eq flag (codes "-j") && text_eq target (codes "BTKN_PRE")
is_jump _ = false

-- A chain of ours, or the jump from PREROUTING to it, which is added or deleted.
abbrev owns_rule : Text → Text → List Text → Bool
owns_rule op chain rest =
    is_owned_chain chain
    || (text_eq chain (codes "PREROUTING")
        && (is_word op (codes "-A" ∷ codes "-D" ∷ []) && is_jump rest))

abbrev owns_mark : Text → List Text → Bool
owns_mark kind (fwmark ∷ mark ∷ rest) =
    text_eq kind (codes "rule")
    && (text_eq fwmark (codes "fwmark") && text_eq mark (codes "0x42544b4e/0xffffffff"))
owns_mark kind _ = false

-- The table that the words name behind `lookup` or `table` is ours, 4254; where none is named, the
-- main table is meant, which is not.
abbrev in_our_table : List Text → Bool
in_our_table [] = false
in_our_table (w ∷ []) = false
in_our_table (w ∷ v ∷ ws) =
    if is_word w (codes "lookup" ∷ codes "table" ∷ [])
    then text_eq v (codes "4254")
    else in_our_table (v ∷ ws)

-- A rule for our mark, or a route, in our table.
abbrev owns_ip : List Text → Bool
owns_ip (family ∷ kind ∷ op ∷ rest) =
    text_eq family (codes "-4")
    && (is_word op (codes "add" ∷ codes "del" ∷ [])
        && (in_our_table rest && (text_eq kind (codes "route") || owns_mark kind rest)))
owns_ip _ = false

-- The arguments of `iptables`, of `ipset` and of `ip`: our chains, our sets, our routing table.
abbrev owns_iptables : List Text → Bool
owns_iptables (t ∷ in_table ∷ op ∷ chain ∷ rest) = owns_rule op chain rest
owns_iptables _ = false

abbrev owns_ipset : List Text → Bool
owns_ipset (op ∷ set ∷ rest) = is_word set (codes "btkn_clients_v4" ∷ codes "btkn_exclude_v4" ∷ [])
owns_ipset _ = false

unfoldable pub is_owned : Argv → Bool
is_owned c =
    (text_eq c.name (codes "iptables") && owns_iptables c.args)
    || (text_eq c.name (codes "ipset") && owns_ipset c.args)
    || (text_eq c.name (codes "ip") && owns_ip c.args)

-- Does a command of `iptables` name PREROUTING?
unfoldable pub names_prerouting : Argv → Bool
names_prerouting c = text_eq c.name (codes "iptables") && is_word (codes "PREROUTING") c.args

-- Every command of an installation, for any client, and of a removal touches only the chains, the
-- sets, the rule for the mark and the routing table of this program, but for those that add or delete
-- the jump from PREROUTING to its chain.
pub commands-IsOwned :
    (client : Addr) → All (λ c. is_owned c ≡ true) (install_commands client ++ remove_commands)
unfolding install_commands remove_commands is_owned text_eq
commands-IsOwned client = every-All is_owned (install_commands client ++ remove_commands) refl

-- No command of `iptables` that an installation runs before its last two names PREROUTING; those do.
pub attached_last :
    (client : Addr)
    → (install_commands client ≡ prepare_commands client ++ attach_commands)
      × All (λ c. not (names_prerouting c) ≡ true) (prepare_commands client)
      × All (λ c. names_prerouting c ≡ true) attach_commands
unfolding install_commands prepare_commands names_prerouting text_eq attach_commands
attached_last client = (
  refl,
  every-All (λ c. not (names_prerouting c)) (prepare_commands client) refl,
  every-All names_prerouting attach_commands refl,
)
