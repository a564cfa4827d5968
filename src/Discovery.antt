-- ===== src/Discovery.antt =====
-- src/tcp_discovery.c: the rounds of the discovery thread. Each of them begins with a sleep, which
-- changes nothing; the endless loop is a number of rounds.
use cc1352_firmware.Prelude.{ℕ, zero, suc, [], ◌∷◌, none, some, if◌then◌else◌, Bytes}
use cc1352_firmware.Prelude.Int.{ℤ, pos, is_negative}
use cc1352_firmware.System.Kernel.{Kernel}
use cc1352_firmware.System.World.{M, ◌>>◌, return, fail, out_of_bounds}
use cc1352_firmware.Mdns.Receive.{DatagramSocket, Stack, mdns_query_recv}
use cc1352_firmware.Mdns.Multicast.{send_query}
use cc1352_firmware.Node.Cache.{max_greybus_nodes}
use cc1352_firmware.Node.Filter.{node_filter}
pub mod Once
pub mod Querying
pub mod Sockets

-- "_greybus._tcp.local"
abbrev pub query : Bytes
query =
    0x5f ∷ 0x67 ∷ 0x72 ∷ 0x65 ∷ 0x79 ∷ 0x62 ∷ 0x75 ∷ 0x73 ∷ 0x2e ∷ 0x5f ∷ 0x74 ∷ 0x63 ∷ 0x70 ∷ 0x2e
    ∷ 0x6c ∷ 0x6f ∷ 0x63 ∷ 0x61 ∷ 0x6c ∷ []

module _ {k : Kernel} where
  -- `handler` in the configuration of prj.conf: `addr` is CONFIG_BEAGLEPLAY_GREYBUS_NODE1 as
  -- `net_ipaddr_parse` reads it.
  unfoldable pub handler : ℕ → Bytes → M k (Unit {0})
  handler zero addr = return tt
  handler (suc rounds) addr = do node_filter (addr ∷ []); handler rounds addr

  -- a round of `handler` with CONFIG_BEAGLEPLAY_GREYBUS_MDNS_DISCOVERY: `sock` is the descriptor,
  -- `s` the socket behind it, `fuel` that of `mdns_query_recv`, whose return value is not negative.
  -- A fault of src/mdns.c is a read out of bounds, as is the end of the fuel.
  unfoldable pub query_round : (net : DatagramSocket) → Stack → ℕ → ℤ → net.Sock → M k net.Sock
  query_round net stack fuel sock s =
      if is_negative sock then return s else elim (send_query net s query) [
        | none ↦ fail out_of_bounds
        | some sent ↦
            if is_negative sent.0
            then return sent.1
            else elim (mdns_query_recv net stack query fuel sent.1 max_greybus_nodes (pos 2000)) [
              | none ↦ fail out_of_bounds
              | some received ↦ (do node_filter received.0; return received.1)
            ]
      ]
