-- ===== src/Capture/Commands.antt =====
-- src/internal/routing/hybrid_plan.go, capture.go: the commands that install and remove the capture
-- of one client. `words` splits a literal at its blanks into the arguments.
use Prim.Native.Char.{code}
use Prim.Native.String.{String}
use blacktemple_kn.Prelude.{ℕ, ◌==◌, if◌then◌else◌, List, [], ◌∷◌, ◌++◌, map, Text, codes}
use blacktemple_kn.Netip.Addr.{Addr}
use blacktemple_kn.Netip.Format.{format_addr, format_prefix}
use blacktemple_kn.Routing.Builtin.{ipv4_direct_prefixes}

pub record Argv : Type 0 where
  pub name : Text
  pub args : List Text

pub record CapturePlan : Type 0 where
  pub install : List Argv
  pub uninstall : List Argv

-- A character in front of a list of words.
abbrev into_first : ℕ → List Text → List Text
into_first c [] = (c ∷ []) ∷ []
into_first c (w ∷ ws) = (c ∷ w) ∷ ws

abbrev pub words : String → List Text
words String.[] = [] ∷ []
words (String.◌∷◌ c s) =
    let rest = words s in if code c == b' ' then [] ∷ rest else into_first (code c) rest

abbrev pub iptables : String → Argv
iptables s = record { name = codes "iptables"; args = words s }

abbrev pub ipset : String → Argv
ipset s = record { name = codes "ipset"; args = words s }

abbrev pub ipcmd : String → Argv
ipcmd s = record { name = codes "ip"; args = words s }

-- An address or a network is added to a set.
unfoldable pub add_to : Text → Text → Argv
add_to set member = record {
  name = codes "ipset";
  args = codes "add" ∷ set ∷ member ∷ codes "-exist" ∷ [];
}

abbrev pub set_clients_v4 : Text
set_clients_v4 = codes "btkn_clients_v4"

abbrev pub set_exclude_v4 : Text
set_exclude_v4 = codes "btkn_exclude_v4"

-- The sets, with the excluded networks and the client in them.
unfoldable pub set_commands : Addr → List Argv
unfolding ipv4_direct_prefixes format_prefix format_addr add_to
set_commands client =
    ipset "create btkn_clients_v4 hash:ip family inet -exist"
    ∷ ipset "create btkn_exclude_v4 hash:net family inet -exist"
    ∷ (map (λ p. add_to set_exclude_v4 (format_prefix p)) ipv4_direct_prefixes
        ++ add_to set_clients_v4 (format_addr client) ∷ [])

unfoldable pub chain_commands : List Argv
chain_commands =
    iptables "-t nat -N BTKN_PRE"
    ∷ iptables "-t nat -N BTKN_TCP"
    ∷ iptables "-t nat -N BTKN_OUT"
    ∷ iptables "-t mangle -N BTKN_PRE"
    ∷ iptables "-t mangle -N BTKN_UDP"
    ∷ iptables "-t mangle -N BTKN_OUT"
    ∷ []

unfoldable pub tcp_commands : List Argv
tcp_commands =
    iptables "-t nat -A BTKN_PRE -m set ! --match-set btkn_clients_v4 src -j RETURN"
    ∷ iptables "-t nat -A BTKN_PRE -j BTKN_TCP"
    ∷ iptables "-t nat -A BTKN_TCP -m set --match-set btkn_exclude_v4 dst -j RETURN"
    ∷ iptables "-t nat -A BTKN_TCP -m addrtype --dst-type LOCAL -j RETURN"
    ∷ iptables "-t nat -A BTKN_TCP -m addrtype --dst-type BROADCAST -j RETURN"
    ∷ iptables "-t nat -A BTKN_TCP -m addrtype --dst-type MULTICAST -j RETURN"
    ∷ iptables "-t nat -A BTKN_TCP -p tcp -j REDIRECT --to-ports 11820"
    ∷ []

unfoldable pub udp_commands : List Argv
udp_commands =
    iptables "-t mangle -A BTKN_PRE -m set ! --match-set btkn_clients_v4 src -j RETURN"
    ∷ iptables "-t mangle -A BTKN_PRE -j BTKN_UDP"
    ∷ iptables
        "-t mangle -A BTKN_UDP -p udp -m conntrack --ctstate RELATED,ESTABLISHED -j CONNMARK --restore-mark --nfmask 0xffffffff --ctmask 0xffffffff"
    ∷ iptables "-t mangle -A BTKN_UDP -m conntrack --ctstate DNAT -j RETURN"
    ∷ iptables "-t mangle -A BTKN_UDP -m conntrack --ctstate INVALID -j RETURN"
    ∷ iptables "-t mangle -A BTKN_UDP -m set --match-set btkn_exclude_v4 dst -j RETURN"
    ∷ iptables "-t mangle -A BTKN_UDP -m addrtype --dst-type LOCAL -j RETURN"
    ∷ iptables "-t mangle -A BTKN_UDP -m addrtype --dst-type BROADCAST -j RETURN"
    ∷ iptables "-t mangle -A BTKN_UDP -m addrtype --dst-type MULTICAST -j RETURN"
    ∷ iptables
        "-t mangle -A BTKN_UDP -p udp -m socket --transparent -j MARK --set-xmark 0x42544b4e/0xffffffff"
    ∷ iptables
        "-t mangle -A BTKN_UDP -p udp -m mark ! --mark 0x0 -j CONNMARK --save-mark --nfmask 0xffffffff --ctmask 0xffffffff"
    ∷ iptables
        "-t mangle -A BTKN_UDP -p udp -j TPROXY --on-ip 127.0.0.1 --on-port 11820 --tproxy-mark 0x42544b4e/0xffffffff"
    ∷ []

unfoldable pub route_commands : List Argv
route_commands =
    ipcmd "-4 rule add fwmark 0x42544b4e/0xffffffff lookup 4254 pref 4254"
    ∷ ipcmd "-4 route add local default dev lo table 4254"
    ∷ []

-- The jumps from PREROUTING.
unfoldable pub attach_commands : List Argv
attach_commands =
    iptables "-t nat -A PREROUTING -j BTKN_PRE"
    ∷ iptables "-t mangle -A PREROUTING -j BTKN_PRE"
    ∷ []

unfoldable pub prepare_commands : Addr → List Argv
unfolding set_commands chain_commands tcp_commands udp_commands route_commands
prepare_commands client =
    set_commands client ++ (chain_commands ++ (tcp_commands ++ (udp_commands ++ route_commands)))

unfoldable pub install_commands : Addr → List Argv
unfolding prepare_commands attach_commands
install_commands client = prepare_commands client ++ attach_commands

unfoldable pub remove_commands : List Argv
remove_commands =
    iptables "-t nat -D PREROUTING -j BTKN_PRE"
    ∷ iptables "-t mangle -D PREROUTING -j BTKN_PRE"
    ∷ iptables "-t nat -F BTKN_TCP"
    ∷ iptables "-t nat -F BTKN_PRE"
    ∷ iptables "-t nat -F BTKN_OUT"
    ∷ iptables "-t mangle -F BTKN_UDP"
    ∷ iptables "-t mangle -F BTKN_PRE"
    ∷ iptables "-t mangle -F BTKN_OUT"
    ∷ iptables "-t nat -X BTKN_TCP"
    ∷ iptables "-t nat -X BTKN_PRE"
    ∷ iptables "-t nat -X BTKN_OUT"
    ∷ iptables "-t mangle -X BTKN_UDP"
    ∷ iptables "-t mangle -X BTKN_PRE"
    ∷ iptables "-t mangle -X BTKN_OUT"
    ∷ ipcmd "-4 rule del fwmark 0x42544b4e/0xffffffff lookup 4254"
    ∷ ipcmd "-4 route del local default dev lo table 4254"
    ∷ ipset "destroy btkn_clients_v4"
    ∷ ipset "destroy btkn_exclude_v4"
    ∷ []
