-- ===== src/RemotePolicy/Keys.antt =====
-- src/internal/remotepolicy/parse.go: the allowlist of keys.
use blacktemple_kn.Prelude.{
  Bool, if◌then◌else◌, Option, none, some, List, [], ◌∷◌, ℤ, Text, codes, text_eq,
}
use blacktemple_kn.RemotePolicy.Settings.{Settings}

pub data Key : Type 0 where
  key_auto_switch key_black_key_protocol key_block_quic key_custom_route_action
        key_custom_route_domains key_dns_direct key_domain_strategy key_fake_dns
        key_fragment_enabled key_fragment_interval key_fragment_length key_fragment_packets
        key_memory_saver key_mtu key_mux_concurrency key_mux_enabled key_mux_xudp_concurrency
        key_mux_xudp_quic key_policy_buffer_size key_policy_conn_idle key_policy_handshake
        key_sniffing key_tcp_fast_open key_tcp_no_delay key_telegram_ips key_whatsapp_ips :
      Key

pub data ValueKind : Type 0 where
  kind_bool kind_int kind_string kind_enum kind_string_slice kind_uri : ValueKind

unfoldable pub kind : Key → ValueKind
kind key_auto_switch = kind_bool
kind key_black_key_protocol = kind_string
kind key_block_quic = kind_bool
kind key_custom_route_action = kind_enum
kind key_custom_route_domains = kind_string_slice
kind key_dns_direct = kind_string
kind key_domain_strategy = kind_string
kind key_fake_dns = kind_bool
kind key_fragment_enabled = kind_bool
kind key_fragment_interval = kind_string
kind key_fragment_length = kind_string
kind key_fragment_packets = kind_string
kind key_memory_saver = kind_bool
kind key_mtu = kind_int
kind key_mux_concurrency = kind_int
kind key_mux_enabled = kind_bool
kind key_mux_xudp_concurrency = kind_int
kind key_mux_xudp_quic = kind_string
kind key_policy_buffer_size = kind_int
kind key_policy_conn_idle = kind_int
kind key_policy_handshake = kind_int
kind key_sniffing = kind_bool
kind key_tcp_fast_open = kind_bool
kind key_tcp_no_delay = kind_bool
kind key_telegram_ips = kind_uri
kind key_whatsapp_ips = kind_uri

unfoldable pub key_text : Key → Text
key_text key_auto_switch = codes "x-auto-switch"
key_text key_black_key_protocol = codes "x-black-key-protocol"
key_text key_block_quic = codes "x-block-quic"
key_text key_custom_route_action = codes "x-custom-route-action"
key_text key_custom_route_domains = codes "x-custom-route-domains"
key_text key_dns_direct = codes "x-dns-direct"
key_text key_domain_strategy = codes "x-domain-strategy"
key_text key_fake_dns = codes "x-fake-dns"
key_text key_fragment_enabled = codes "x-fragment-enabled"
key_text key_fragment_interval = codes "x-fragment-interval"
key_text key_fragment_length = codes "x-fragment-length"
key_text key_fragment_packets = codes "x-fragment-packets"
key_text key_memory_saver = codes "x-memory-saver"
key_text key_mtu = codes "x-mtu"
key_text key_mux_concurrency = codes "x-mux-concurrency"
key_text key_mux_enabled = codes "x-mux-enabled"
key_text key_mux_xudp_concurrency = codes "x-mux-xudp-concurrency"
key_text key_mux_xudp_quic = codes "x-mux-xudp-quic"
key_text key_policy_buffer_size = codes "x-policy-buffer-size"
key_text key_policy_conn_idle = codes "x-policy-conn-idle"
key_text key_policy_handshake = codes "x-policy-handshake"
key_text key_sniffing = codes "x-sniffing"
key_text key_tcp_fast_open = codes "x-tcp-fast-open"
key_text key_tcp_no_delay = codes "x-tcp-no-delay"
key_text key_telegram_ips = codes "x-telegram-ips"
key_text key_whatsapp_ips = codes "x-whatsapp-ips"

abbrev pub known_keys : List Key
known_keys =
    key_auto_switch ∷ key_black_key_protocol ∷ key_block_quic ∷ key_custom_route_action
    ∷ key_custom_route_domains ∷ key_dns_direct ∷ key_domain_strategy ∷ key_fake_dns
    ∷ key_fragment_enabled ∷ key_fragment_interval ∷ key_fragment_length ∷ key_fragment_packets
    ∷ key_memory_saver ∷ key_mtu ∷ key_mux_concurrency ∷ key_mux_enabled ∷ key_mux_xudp_concurrency
    ∷ key_mux_xudp_quic ∷ key_policy_buffer_size ∷ key_policy_conn_idle ∷ key_policy_handshake
    ∷ key_sniffing ∷ key_tcp_fast_open ∷ key_tcp_no_delay ∷ key_telegram_ips ∷ key_whatsapp_ips ∷ []

-- `allowlist[k]`
unfoldable pub key_among : Text → List Key → Option Key
unfolding key_text
key_among t [] = none
key_among t (k ∷ ks) = if text_eq (key_text k) t then some k else key_among t ks

unfoldable pub key_named : Text → Option Key
unfolding key_among
key_named t = key_among t known_keys

unfoldable pub set_bool : Key → Bool → Settings → Settings
set_bool key_auto_switch v s = record s { auto_switch = some v }
set_bool key_block_quic v s = record s { block_quic = some v }
set_bool key_fake_dns v s = record s { fake_dns = some v }
set_bool key_fragment_enabled v s = record s { fragment_enabled = some v }
set_bool key_memory_saver v s = record s { memory_saver = some v }
set_bool key_mux_enabled v s = record s { mux_enabled = some v }
set_bool key_sniffing v s = record s { sniffing = some v }
set_bool key_tcp_fast_open v s = record s { tcp_fast_open = some v }
set_bool key_tcp_no_delay v s = record s { tcp_no_delay = some v }
set_bool _ v s = s

unfoldable pub set_int : Key → ℤ → Settings → Settings
set_int key_mtu v s = record s { mtu = some v }
set_int key_mux_concurrency v s = record s { mux_concurrency = some v }
set_int key_mux_xudp_concurrency v s = record s { mux_xudp_concurrency = some v }
set_int key_policy_buffer_size v s = record s { policy_buffer_size = some v }
set_int key_policy_conn_idle v s = record s { policy_conn_idle = some v }
set_int key_policy_handshake v s = record s { policy_handshake = some v }
set_int _ v s = s

unfoldable pub set_string : Key → Text → Settings → Settings
set_string key_black_key_protocol v s = record s { black_key_protocol = some v }
set_string key_dns_direct v s = record s { dns_direct = some v }
set_string key_domain_strategy v s = record s { domain_strategy = some v }
set_string key_fragment_interval v s = record s { fragment_interval = some v }
set_string key_fragment_length v s = record s { fragment_length = some v }
set_string key_fragment_packets v s = record s { fragment_packets = some v }
set_string key_mux_xudp_quic v s = record s { mux_xudp_quic = some v }
set_string _ v s = s

unfoldable pub set_uri : Key → Text → Settings → Settings
set_uri key_telegram_ips v s = record s { telegram_ips = some v }
set_uri key_whatsapp_ips v s = record s { whatsapp_ips = some v }
set_uri _ v s = s

-- The typed value of a setting.
pub data Value : Type 0 where
  flag : Bool → Value
  number : ℤ → Value
  text : Text → Value
  texts : List Text → Value

abbrev pub wrap {ℓ} : {A : Type ℓ} → (A → Value) → Option A → Option Value
wrap f none = none
wrap f (some a) = some (f a)

-- The settings as a map from keys.
unfoldable pub value : Key → Settings → Option Value
value key_auto_switch s = wrap flag s.auto_switch
value key_black_key_protocol s = wrap text s.black_key_protocol
value key_block_quic s = wrap flag s.block_quic
value key_custom_route_action s = wrap text s.custom_route_action
value key_custom_route_domains s = wrap texts s.custom_route_domains
value key_dns_direct s = wrap text s.dns_direct
value key_domain_strategy s = wrap text s.domain_strategy
value key_fake_dns s = wrap flag s.fake_dns
value key_fragment_enabled s = wrap flag s.fragment_enabled
value key_fragment_interval s = wrap text s.fragment_interval
value key_fragment_length s = wrap text s.fragment_length
value key_fragment_packets s = wrap text s.fragment_packets
value key_memory_saver s = wrap flag s.memory_saver
value key_mtu s = wrap number s.mtu
value key_mux_concurrency s = wrap number s.mux_concurrency
value key_mux_enabled s = wrap flag s.mux_enabled
value key_mux_xudp_concurrency s = wrap number s.mux_xudp_concurrency
value key_mux_xudp_quic s = wrap text s.mux_xudp_quic
value key_policy_buffer_size s = wrap number s.policy_buffer_size
value key_policy_conn_idle s = wrap number s.policy_conn_idle
value key_policy_handshake s = wrap number s.policy_handshake
value key_sniffing s = wrap flag s.sniffing
value key_tcp_fast_open s = wrap flag s.tcp_fast_open
value key_tcp_no_delay s = wrap flag s.tcp_no_delay
value key_telegram_ips s = wrap text s.telegram_ips
value key_whatsapp_ips s = wrap text s.whatsapp_ips
