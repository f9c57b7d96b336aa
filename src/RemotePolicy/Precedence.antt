-- ===== src/RemotePolicy/Precedence.antt =====
-- src/internal/remotepolicy/merge.go, manager.go: which layer a setting comes from.
use blacktemple_kn.Prelude.{
  true, Option, none, some, List, Text, inl, inr, ◌≡◌, refl, Bool-cases, Sum-cases,
}
use blacktemple_kn.RemotePolicy.Settings.{Settings, no_settings, over, overlay, merge}
use blacktemple_kn.RemotePolicy.Keys.{
  Key, key_auto_switch, key_black_key_protocol, key_block_quic, key_custom_route_action,
  key_custom_route_domains, key_dns_direct, key_domain_strategy, key_fake_dns, key_fragment_enabled,
  key_fragment_interval, key_fragment_length, key_fragment_packets, key_memory_saver, key_mtu,
  key_mux_concurrency, key_mux_enabled, key_mux_xudp_concurrency, key_mux_xudp_quic,
  key_policy_buffer_size, key_policy_conn_idle, key_policy_handshake, key_sniffing,
  key_tcp_fast_open, key_tcp_no_delay, key_telegram_ips, key_whatsapp_ips, Value, flag, number,
  text, texts, wrap, value,
}
use blacktemple_kn.RemotePolicy.Document.{Decoder, Error, Issue, parse}
use blacktemple_kn.RemotePolicy.Manager.{
  Crypto, Origin, IntegrityStatus, IntegrityInput, Manager, allowed, classify_integrity, effective,
  apply_parsed, apply_remote,
}

over-wrap :
    {A : Type 0} (f : A → Value) (below above : Option A)
    → wrap f (over below above) ≡ over (wrap f below) (wrap f above)
over-wrap f below none = refl
over-wrap f below (some a) = refl

value-overlay : (k : Key) (a b : Settings) → value k (overlay a b) ≡ over (value k a) (value k b)
unfolding value overlay
value-overlay key_auto_switch a b = over-wrap flag a.auto_switch b.auto_switch
value-overlay key_black_key_protocol a b = over-wrap text a.black_key_protocol b.black_key_protocol
value-overlay key_block_quic a b = over-wrap flag a.block_quic b.block_quic
value-overlay key_custom_route_action a b =
    over-wrap text a.custom_route_action b.custom_route_action
value-overlay key_custom_route_domains a b =
    over-wrap texts a.custom_route_domains b.custom_route_domains
value-overlay key_dns_direct a b = over-wrap text a.dns_direct b.dns_direct
value-overlay key_domain_strategy a b = over-wrap text a.domain_strategy b.domain_strategy
value-overlay key_fake_dns a b = over-wrap flag a.fake_dns b.fake_dns
value-overlay key_fragment_enabled a b = over-wrap flag a.fragment_enabled b.fragment_enabled
value-overlay key_fragment_interval a b = over-wrap text a.fragment_interval b.fragment_interval
value-overlay key_fragment_length a b = over-wrap text a.fragment_length b.fragment_length
value-overlay key_fragment_packets a b = over-wrap text a.fragment_packets b.fragment_packets
value-overlay key_memory_saver a b = over-wrap flag a.memory_saver b.memory_saver
value-overlay key_mtu a b = over-wrap number a.mtu b.mtu
value-overlay key_mux_concurrency a b = over-wrap number a.mux_concurrency b.mux_concurrency
value-overlay key_mux_enabled a b = over-wrap flag a.mux_enabled b.mux_enabled
value-overlay key_mux_xudp_concurrency a b =
    over-wrap number a.mux_xudp_concurrency b.mux_xudp_concurrency
value-overlay key_mux_xudp_quic a b = over-wrap text a.mux_xudp_quic b.mux_xudp_quic
value-overlay key_policy_buffer_size a b =
    over-wrap number a.policy_buffer_size b.policy_buffer_size
value-overlay key_policy_conn_idle a b = over-wrap number a.policy_conn_idle b.policy_conn_idle
value-overlay key_policy_handshake a b = over-wrap number a.policy_handshake b.policy_handshake
value-overlay key_sniffing a b = over-wrap flag a.sniffing b.sniffing
value-overlay key_tcp_fast_open a b = over-wrap flag a.tcp_fast_open b.tcp_fast_open
value-overlay key_tcp_no_delay a b = over-wrap flag a.tcp_no_delay b.tcp_no_delay
value-overlay key_telegram_ips a b = over-wrap text a.telegram_ips b.telegram_ips
value-overlay key_whatsapp_ips a b = over-wrap text a.whatsapp_ips b.whatsapp_ips

value-none : (k : Key) → value k no_settings ≡ none
unfolding value
value-none key_auto_switch = refl
value-none key_black_key_protocol = refl
value-none key_block_quic = refl
value-none key_custom_route_action = refl
value-none key_custom_route_domains = refl
value-none key_dns_direct = refl
value-none key_domain_strategy = refl
value-none key_fake_dns = refl
value-none key_fragment_enabled = refl
value-none key_fragment_interval = refl
value-none key_fragment_length = refl
value-none key_fragment_packets = refl
value-none key_memory_saver = refl
value-none key_mtu = refl
value-none key_mux_concurrency = refl
value-none key_mux_enabled = refl
value-none key_mux_xudp_concurrency = refl
value-none key_mux_xudp_quic = refl
value-none key_policy_buffer_size = refl
value-none key_policy_conn_idle = refl
value-none key_policy_handshake = refl
value-none key_sniffing = refl
value-none key_tcp_fast_open = refl
value-none key_tcp_no_delay = refl
value-none key_telegram_ips = refl
value-none key_whatsapp_ips = refl

over-none : {A : Type 0} (x : Option A) → over none x ≡ x
over-none none = refl
over-none (some a) = refl

-- Each setting that `merge` gives is that of the highest layer that has one: session, then local,
-- then remote, then the defaults.
pub merge-Overrides :
    (builtin remote local session : Settings) (k : Key)
    → value k (merge builtin remote local session)
      ≡ over (over (over (value k builtin) (value k remote)) (value k local)) (value k session)
unfolding merge
merge-Overrides b r l s k =
    rw
      (
        value-overlay k (overlay (overlay (overlay no_settings b) r) l) s,
        value-overlay k (overlay (overlay no_settings b) r) l,
        value-overlay k (overlay no_settings b) r,
        value-overlay k no_settings b,
        value-none k,
        over-none (value k b),
      )
      refl

module _ (json : Decoder) (crypto : Crypto) where
  -- The manager after a document with the settings `s` is in force: the settings of the user, the
  -- session and the program stand.
  abbrev pub IsInForce : Settings → Manager → Manager → Type 0
  IsInForce s m m' =
      (k : Key)
      → value k (effective m')
        ≡ over (over (over (value k m.builtin) (value k s)) (value k m.local)) (value k m.session)

  abbrev pub IsApplied : Origin → Text → IntegrityInput → Manager → Manager × Option Error → Type 0
  IsApplied o body i m (m', some e) = m' ≡ m
  IsApplied o body i m (m', none) =
      (allowed o ≡ true)
      × ((status : IntegrityStatus) × ((s : Settings) × ((ignored : List Issue)
              × (((classify_integrity crypto body i ≡ inr status)
                    × (parse json body ≡ inr (s, ignored)))
                  × IsInForce s m m'))))

  -- `ApplyRemote` with an error leaves the manager as it was. Without one the origin is allowed, the
  -- body is authenticated and parses, and from then on each effective setting is that of the
  -- session, else the user's, else the document's, else the default.
  pub apply_remote-IsApplied :
      (o : Origin) (body : Text) (i : IntegrityInput) (m : Manager)
      → IsApplied o body i m (apply_remote json crypto o body i m)
  unfolding apply_remote apply_parsed effective
  apply_remote-IsApplied o body i m = elim (Bool-cases (allowed o)) [
    | inr theirs ↦ rw (apply_remote, theirs) refl
    | inl ours ↦ elim (Sum-cases (classify_integrity crypto body i)) [
      | inl (e, wrong) ↦ rw (apply_remote, ours, wrong) refl
      | inr (status, right) ↦ elim (Sum-cases (parse json body)) [
        | inl (e, bad) ↦ rw (apply_remote, ours, right, bad) refl
        | inr ((s, ignored), good) ↦
            rw (apply_remote, ours, right, good)
              (
                ours,
                (
                  status,
                  (
                    s,
                    (
                      ignored,
                      ((right, good), λ k. merge-Overrides m.builtin s m.local m.session k),
                    ),
                  ),
                ),
              )
      ]
    ]
  ]
