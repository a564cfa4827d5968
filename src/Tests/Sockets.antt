-- ===== src/Tests/Sockets.antt =====
-- The socket for mDNS.
use cc1352_firmware.Prelude.{◌≡◌, refl, true, false, some, List, [], ◌∷◌, length, drop, ap}
use cc1352_firmware.Prelude.Int.{ℤ, pos, minus_one}
use cc1352_firmware.Mdns.Socket.{Network, mdns_socket_open_ipv6}
use cc1352_firmware.Discovery.Sockets.{
  mdns_addr, TcpDiscovery, tcp_discovery_start, tcp_discovery_stop, TracksSockets,
  tcp_discovery_stop-tcp_discovery_start,
}

-- The network is the list of its open sockets, and each call of it succeeds, except for
-- `zsock_bind`, whose result is given.
abbrev network : ℤ → Network
network bound = record {
  Net = List ℤ;
  net_if_get_default = λ n. some 1;
  net_if_ipv6_maddr_add = λ n iface addr. (some 2, n);
  net_if_ipv6_maddr_join = λ n iface m. n;
  zsock_socket = λ n. (pos (length n), pos (length n) ∷ n);
  zsock_setsockopt = λ n sock opt v. n;
  zsock_bind = λ n sock addr port. (bound, n);
  zsock_close = λ n sock. drop 1 n;
}

network-TracksSockets : (bound : ℤ) → TracksSockets (network bound) (λ n. n)
network-TracksSockets bound = record {
  added = λ n iface addr. refl;
  joined = λ n iface m. refl;
  not_opened = λ n e. absurd cc;
  is_opened = λ n e. refl;
  set = λ n sock opt v. refl;
  bound = λ n sock addr port. refl;
  closed = λ n sock socks e. ap (drop 1) e;
}

abbrev stopped : (bound : ℤ) → TcpDiscovery (network bound)
stopped bound = record { sock = minus_one; running = false; net = pos 0 ∷ [] }

opens : mdns_socket_open_ipv6 (network (pos 0)) mdns_addr (pos 0 ∷ []) ≡ (pos 1, pos 1 ∷ pos 0 ∷ [])
unfolding mdns_socket_open_ipv6
opens = refl

not_bound :
    mdns_socket_open_ipv6 (network minus_one) mdns_addr (pos 0 ∷ []) ≡ (minus_one, pos 0 ∷ [])
unfolding mdns_socket_open_ipv6
not_bound = refl

tcp_discovery_stop-tcp_discovery_start_example :
    let after =
      tcp_discovery_stop
        (network (pos 0))
        (record { sock = pos 1; running = true; net = pos 1 ∷ pos 0 ∷ [] }) in
    (after.net ≡ pos 0 ∷ []) × (after.sock ≡ minus_one) × (after.running ≡ false)
unfolding tcp_discovery_start mdns_socket_open_ipv6
tcp_discovery_stop-tcp_discovery_start_example =
    tcp_discovery_stop-tcp_discovery_start (network-TracksSockets (pos 0)) (stopped (pos 0))
      (pos 1 ∷ pos 0 ∷ []) refl
