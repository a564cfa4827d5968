-- ===== src/Discovery/Sockets.antt =====
-- src/tcp_discovery.c (and `mdns_addr` of include/mdns.h) with CONFIG_BEAGLEPLAY_GREYBUS_MDNS_DISCOVERY: start and stop of discovery, and
-- the socket that they open and close.
use cc1352_firmware.Prelude.{
  ℕ, ◌≡◌, refl, ◌∙◌, Bool, true, false, Option, none, some, List, [], ◌∷◌, inl, inr, ◌⊎◌,
  if◌then◌else◌, Bytes, replicate, ◌++◌, Bool-cases, Option-cases,
}
use cc1352_firmware.Prelude.Int.{ℤ, minus_one, is_negative, is_zero}
use cc1352_firmware.Mdns.Socket.{
  SocketOption, Network, join_group, join_multicast_group, bind_any, mdns_socket_setup_ipv6,
  mdns_socket_close, mdns_socket_open_ipv6,
}

-- `mdns_addr`, ff02::fb
abbrev pub mdns_addr : Bytes
mdns_addr = 0xff ∷ 0x02 ∷ (replicate 13 0 ++ 0xfb ∷ [])

module _ (o : Network) where
  -- `tcp_discovery_data`, whether the thread runs, and the network
  pub record TcpDiscovery : Type 0 where
    pub sock : ℤ
    pub running : Bool
    pub net : o.Net

  unfoldable pub tcp_discovery_start : TcpDiscovery → TcpDiscovery
  tcp_discovery_start d =
      let (sock, n) = mdns_socket_open_ipv6 o mdns_addr d.net in
      record { sock = sock; running = true; net = n }

  unfoldable pub tcp_discovery_stop : TcpDiscovery → TcpDiscovery
  tcp_discovery_stop d =
      if is_negative d.sock
      then record { sock = d.sock; running = false; net = d.net }
      else record { sock = minus_one; running = false; net = mdns_socket_close o d.sock d.net }

-- The sockets that are open, by the order in which they were opened: opening adds one where it
-- succeeds, closing the last takes it away, and nothing else changes them.
pub record TracksSockets (o : Network) (opened : o.Net → List ℤ) : Type 0 where
  pub added :
      (n : o.Net) (iface : ℕ) (addr : Bytes)
      → opened (o.net_if_ipv6_maddr_add n iface addr).1 ≡ opened n
  pub joined : (n : o.Net) (iface m : ℕ) → opened (o.net_if_ipv6_maddr_join n iface m) ≡ opened n
  pub not_opened :
      (n : o.Net) → is_negative (o.zsock_socket n).0 ≡ true → opened (o.zsock_socket n).1 ≡ opened n
  pub is_opened :
      (n : o.Net)
      → is_negative (o.zsock_socket n).0 ≡ false
      → opened (o.zsock_socket n).1 ≡ (o.zsock_socket n).0 ∷ opened n
  pub set :
      (n : o.Net) (sock : ℤ) (opt : SocketOption) (v : ℕ)
      → opened (o.zsock_setsockopt n sock opt v) ≡ opened n
  pub bound :
      (n : o.Net) (sock : ℤ) (addr : Bytes) (port : ℕ)
      → opened (o.zsock_bind n sock addr port).1 ≡ opened n
  pub closed :
      (n : o.Net) (sock : ℤ) (socks : List ℤ)
      → opened n ≡ sock ∷ socks
      → opened (o.zsock_close n sock) ≡ socks

module _ {o : Network} {opened : o.Net → List ℤ} (t : TracksSockets o opened) where
  join_group-opened :
      (addr : Bytes) (iface : Option ℕ) (n : o.Net)
      → opened (join_group o addr iface n).1 ≡ opened n
  unfolding join_group
  join_group-opened addr none n = refl
  join_group-opened addr (some iface) n =
      let (mcast, n') = o.net_if_ipv6_maddr_add n iface addr in
      elim (Option-cases mcast) [
        | inl e ↦ rw (e, join_group) (t.added n iface addr)
        | inr (m, e) ↦ rw (e, join_group) (t.joined n' iface m ∙ t.added n iface addr)
      ]

  bind_any-opened : (sock : ℤ) (n : o.Net) → opened (bind_any o sock n).1 ≡ opened n
  unfolding bind_any
  bind_any-opened sock n = t.bound _ _ _ _ ∙ t.set _ _ _ _ ∙ t.set _ _ _ _

  mdns_socket_setup_ipv6-opened :
      (sock : ℤ) (addr : Bytes) (n : o.Net)
      → opened (mdns_socket_setup_ipv6 o sock addr n).1 ≡ opened n
  unfolding mdns_socket_setup_ipv6 join_multicast_group
  mdns_socket_setup_ipv6-opened sock addr n =
      let iface = o.net_if_get_default n in
      let group = join_group-opened addr iface n in
      elim (Bool-cases (join_group o addr iface n).0) [
        | inl e ↦ rw e (bind_any-opened sock (join_group o addr iface n).1 ∙ group)
        | inr e ↦ rw e group
      ]

  -- what is open when `mdns_socket_open_ipv6` has returned `sock`
  abbrev Opened : ℤ → List ℤ → List ℤ → Type 0
  Opened sock before after =
      ((sock ≡ minus_one) × (after ≡ before))
      ⊎ ((is_negative sock ≡ false) × (after ≡ sock ∷ before))

  mdns_socket_open_ipv6-Opened :
      (addr : Bytes) (n : o.Net)
      → let (sock, n') = mdns_socket_open_ipv6 o addr n in Opened sock (opened n) (opened n')
  unfolding mdns_socket_open_ipv6 mdns_socket_close
  mdns_socket_open_ipv6-Opened addr n =
      let (sock, n') = o.zsock_socket n in
      let (ret, n'') = mdns_socket_setup_ipv6 o sock addr n' in
      let same = mdns_socket_setup_ipv6-opened sock addr n' in
      elim (Bool-cases (is_negative sock)) [
        | inl e ↦ rw e (inl (refl, t.not_opened n e))
        | inr e ↦
            let grown = same ∙ t.is_opened n e in
            elim (Bool-cases (is_zero ret)) [
              | inl z ↦ rw (e, z) (inr (e, grown))
              | inr z ↦ rw (e, z) (inl (refl, t.closed n'' sock (opened n) grown))
            ]
      ]

  -- Over a network whose sockets are open from the call that opens them to the one that closes them:
  -- starting discovery and stopping it again leaves no socket open that was not open before, and no
  -- socket in `tcp_discovery_data`, whether or not each call of the network succeeds, and whatever
  -- happened to the network between the two as long as the same sockets are open.
  pub tcp_discovery_stop-tcp_discovery_start :
      (d : TcpDiscovery o) (between : o.Net)
      → opened between ≡ opened (TcpDiscovery.net (tcp_discovery_start o d))
      → let stopped = tcp_discovery_stop o (record (tcp_discovery_start o d) { net = between }) in
        (opened stopped.net ≡ opened d.net) × (stopped.sock ≡ minus_one) × (stopped.running ≡ false)
  unfolding tcp_discovery_start tcp_discovery_stop mdns_socket_close
  tcp_discovery_stop-tcp_discovery_start d between h =
      let (sock, n) = mdns_socket_open_ipv6 o mdns_addr d.net in
      elim (mdns_socket_open_ipv6-Opened mdns_addr d.net) [
        | inl (e, same) ↦ rw e (h ∙ same, refl, refl)
        | inr (e, grown) ↦ rw e (t.closed between sock (opened d.net) (h ∙ grown), refl, refl)
      ]
