-- ===== src/Mdns/Multicast.antt =====
-- src/mdns.c: how the query is sent.
use cc1352_firmware.Prelude.{
  ℕ, zero, suc, Bool, true, false, [], ◌∷◌, ◌++◌, Option, none, some, if◌then◌else◌, replicate,
  Bytes, ◌+◌, ◌*◌, ◌^◌,
}
use cc1352_firmware.Prelude.Int.{ℤ, pos, negsuc, minus_one, is_negative}
use cc1352_firmware.Mdns.Memory.{◌>>=◌}
use cc1352_firmware.Mdns.Query.{mdns_query_send}
use cc1352_firmware.Mdns.Receive.{DatagramSocket, Destination, ipv4, ipv6}

abbrev pub mdns_port : ℕ
mdns_port = 5353

-- ff02::fb and 224.0.0.251
abbrev pub multicast_addr : Bool → Destination
multicast_addr true = ipv6 (0xff ∷ 0x02 ∷ (replicate 13 0 ++ 0xfb ∷ [])) mdns_port
multicast_addr false = ipv4 (224 * 2 ^ 24 + 251) mdns_port

module _ (net : DatagramSocket) where
  unfoldable pub mdns_multicast_send : net.Sock → Bytes → ℤ × net.Sock
  mdns_multicast_send sock buffer =
      let (named, family) = net.zsock_getsockname sock in
      let (ret, sock') = net.zsock_sendto sock (multicast_addr family) buffer in
      elim named [
        | pos zero ↦ (if is_negative ret then minus_one else pos 0, sock')
        | pos (suc n) ↦ (minus_one, sock)
        | negsuc n ↦ (minus_one, sock)
      ]

  -- `mdns_query_send` with what comes of it: -1 where the query is not written
  unfoldable pub send_query : net.Sock → Bytes → Option (ℤ × net.Sock)
  send_query sock name = do
    made ← mdns_query_send name
    elim made [
      | none ↦ some (minus_one, sock)
      | some buffer ↦ some (mdns_multicast_send sock buffer)
    ]
