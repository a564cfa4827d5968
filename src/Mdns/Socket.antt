-- ===== src/Mdns/Socket.antt =====
-- src/mdns.c: how the socket for queries and answers is opened and closed.
use cc1352_firmware.Prelude.{
  ℕ, Bool, true, false, Option, none, some, if◌then◌else◌, Bytes, replicate,
}
use cc1352_firmware.Prelude.Int.{ℤ, pos, minus_one, is_negative, is_zero}
use cc1352_firmware.Mdns.Multicast.{mdns_port}

pub data SocketOption : Type 0 where
  so_reuseaddr so_reuseport : SocketOption

-- The network library as far as this socket needs it. An interface and the record of a group are
-- pointers; `zsock_bind` takes an address and a port.
pub record Network : Type 1 where
  pub Net : Type 0
  pub net_if_get_default : Net → Option ℕ
  pub net_if_ipv6_maddr_add : Net → ℕ → Bytes → Option ℕ × Net
  pub net_if_ipv6_maddr_join : Net → ℕ → ℕ → Net
  pub zsock_socket : Net → ℤ × Net
  pub zsock_setsockopt : Net → ℤ → SocketOption → ℕ → Net
  pub zsock_bind : Net → ℤ → Bytes → ℕ → ℤ × Net
  pub zsock_close : Net → ℤ → Net

-- `in6addr_any`
abbrev pub in6addr_any : Bytes
in6addr_any = replicate 16 0

module _ (o : Network) where
  -- the part of `join_multicast_group` behind the choice of the interface
  unfoldable pub join_group : Bytes → Option ℕ → o.Net → Bool × o.Net
  join_group mcast_addr none n = (false, n)
  join_group mcast_addr (some iface) n =
      let (mcast, n') = o.net_if_ipv6_maddr_add n iface mcast_addr in
      elim mcast [ none ↦ (false, n') | some m ↦ (true, o.net_if_ipv6_maddr_join n' iface m) ]

  unfoldable pub join_multicast_group : Bytes → o.Net → Bool × o.Net
  unfolding join_group
  join_multicast_group mcast_addr n = join_group mcast_addr (o.net_if_get_default n) n

  -- the part of `mdns_socket_setup_ipv6` behind the joining of the group
  unfoldable pub bind_any : ℤ → o.Net → ℤ × o.Net
  bind_any sock n =
      let n' = o.zsock_setsockopt n sock SocketOption.so_reuseaddr 1 in
      let n'' = o.zsock_setsockopt n' sock SocketOption.so_reuseport 1 in
      let (ret, n''') = o.zsock_bind n'' sock in6addr_any mdns_port in
      (if is_zero ret then pos 0 else minus_one, n''')

  unfoldable pub mdns_socket_setup_ipv6 : ℤ → Bytes → o.Net → ℤ × o.Net
  unfolding join_multicast_group bind_any
  mdns_socket_setup_ipv6 sock jaddr n =
      let (joined, n') = join_multicast_group jaddr n in
      if joined then bind_any sock n' else (minus_one, n')

  unfoldable pub mdns_socket_close : ℤ → o.Net → o.Net
  mdns_socket_close sock n = o.zsock_close n sock

  unfoldable pub mdns_socket_open_ipv6 : Bytes → o.Net → ℤ × o.Net
  unfolding mdns_socket_setup_ipv6 mdns_socket_close
  mdns_socket_open_ipv6 jaddr n =
      let (sock, n') = o.zsock_socket n in
      let (ret, n'') = mdns_socket_setup_ipv6 sock jaddr n' in
      if is_negative sock
      then (minus_one, n')
      else if is_zero ret
      then (sock, n'')
      else (minus_one, mdns_socket_close sock n'')
