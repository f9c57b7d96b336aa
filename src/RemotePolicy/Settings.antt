-- ===== src/RemotePolicy/Settings.antt =====
-- src/internal/remotepolicy: the settings (types.go), the keys (parse.go) and their layers (merge.go).
-- A pointer that is nil, and a slice that is nil, is `none`.
use blacktemple_kn.Prelude.{Bool, false, Option, none, some, List, ℤ, Text}

pub record Settings : Type 0 where
  pub auto_switch : Option Bool
  pub black_key_protocol : Option Text
  pub block_quic : Option Bool
  pub custom_route_action : Option Text
  pub custom_route_domains : Option (List Text)
  pub dns_direct : Option Text
  pub domain_strategy : Option Text
  pub fake_dns : Option Bool
  pub fragment_enabled : Option Bool
  pub fragment_interval : Option Text
  pub fragment_length : Option Text
  pub fragment_packets : Option Text
  pub memory_saver : Option Bool
  pub mtu : Option ℤ
  pub mux_concurrency : Option ℤ
  pub mux_enabled : Option Bool
  pub mux_xudp_concurrency : Option ℤ
  pub mux_xudp_quic : Option Text
  pub policy_buffer_size : Option ℤ
  pub policy_conn_idle : Option ℤ
  pub policy_handshake : Option ℤ
  pub sniffing : Option Bool
  pub tcp_fast_open : Option Bool
  pub tcp_no_delay : Option Bool
  pub telegram_ips : Option Text
  pub whatsapp_ips : Option Text

-- `Settings{}`
abbrev pub no_settings : Settings
no_settings = record {
  auto_switch = none;
  black_key_protocol = none;
  block_quic = none;
  custom_route_action = none;
  custom_route_domains = none;
  dns_direct = none;
  domain_strategy = none;
  fake_dns = none;
  fragment_enabled = none;
  fragment_interval = none;
  fragment_length = none;
  fragment_packets = none;
  memory_saver = none;
  mtu = none;
  mux_concurrency = none;
  mux_enabled = none;
  mux_xudp_concurrency = none;
  mux_xudp_quic = none;
  policy_buffer_size = none;
  policy_conn_idle = none;
  policy_handshake = none;
  sniffing = none;
  tcp_fast_open = none;
  tcp_no_delay = none;
  telegram_ips = none;
  whatsapp_ips = none;
}

abbrev pub built_in_defaults : Settings
built_in_defaults = record {
  auto_switch = some false;
  black_key_protocol = none;
  block_quic = some false;
  custom_route_action = none;
  custom_route_domains = none;
  dns_direct = none;
  domain_strategy = none;
  fake_dns = some false;
  fragment_enabled = some false;
  fragment_interval = none;
  fragment_length = none;
  fragment_packets = none;
  memory_saver = some false;
  mtu = none;
  mux_concurrency = none;
  mux_enabled = some false;
  mux_xudp_concurrency = none;
  mux_xudp_quic = none;
  policy_buffer_size = none;
  policy_conn_idle = none;
  policy_handshake = none;
  sniffing = some false;
  tcp_fast_open = some false;
  tcp_no_delay = some false;
  telegram_ips = none;
  whatsapp_ips = none;
}

-- A field of the layer above, where it has one.
abbrev pub over {ℓ} : {A : Type ℓ} → Option A → Option A → Option A
over below (some a) = some a
over below none = below

unfoldable pub overlay : Settings → Settings → Settings
overlay dst src = record {
  auto_switch = over dst.auto_switch src.auto_switch;
  black_key_protocol = over dst.black_key_protocol src.black_key_protocol;
  block_quic = over dst.block_quic src.block_quic;
  custom_route_action = over dst.custom_route_action src.custom_route_action;
  custom_route_domains = over dst.custom_route_domains src.custom_route_domains;
  dns_direct = over dst.dns_direct src.dns_direct;
  domain_strategy = over dst.domain_strategy src.domain_strategy;
  fake_dns = over dst.fake_dns src.fake_dns;
  fragment_enabled = over dst.fragment_enabled src.fragment_enabled;
  fragment_interval = over dst.fragment_interval src.fragment_interval;
  fragment_length = over dst.fragment_length src.fragment_length;
  fragment_packets = over dst.fragment_packets src.fragment_packets;
  memory_saver = over dst.memory_saver src.memory_saver;
  mtu = over dst.mtu src.mtu;
  mux_concurrency = over dst.mux_concurrency src.mux_concurrency;
  mux_enabled = over dst.mux_enabled src.mux_enabled;
  mux_xudp_concurrency = over dst.mux_xudp_concurrency src.mux_xudp_concurrency;
  mux_xudp_quic = over dst.mux_xudp_quic src.mux_xudp_quic;
  policy_buffer_size = over dst.policy_buffer_size src.policy_buffer_size;
  policy_conn_idle = over dst.policy_conn_idle src.policy_conn_idle;
  policy_handshake = over dst.policy_handshake src.policy_handshake;
  sniffing = over dst.sniffing src.sniffing;
  tcp_fast_open = over dst.tcp_fast_open src.tcp_fast_open;
  tcp_no_delay = over dst.tcp_no_delay src.tcp_no_delay;
  telegram_ips = over dst.telegram_ips src.telegram_ips;
  whatsapp_ips = over dst.whatsapp_ips src.whatsapp_ips;
}

unfoldable pub merge : Settings → Settings → Settings → Settings → Settings
unfolding overlay
merge builtin remote local session =
    overlay (overlay (overlay (overlay no_settings builtin) remote) local) session
