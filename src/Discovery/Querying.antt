-- ===== src/Discovery/Querying.antt =====
-- src/tcp_discovery.c, src/mdns.c and src/node.c: a round of discovery from the query to the nodes.
use cc1352_firmware.Prelude.{
  ℕ, ◌<◌, ◌≡◌, refl, Bool, [], ◌∷◌, ◌++◌, some, arith, length, take, All, Bytes,
}
use cc1352_firmware.Prelude.Int.{pos}
use cc1352_firmware.System.Kernel.{Kernel}
use cc1352_firmware.System.World.{World, ◌>>◌, return}
use cc1352_firmware.Mdns.Query.{mdns_query_send, mdns_multiquery_send}
use cc1352_firmware.Mdns.Receive.{DatagramSocket, Stack}
use cc1352_firmware.Mdns.Multicast.{multicast_addr, mdns_multicast_send, send_query}
use cc1352_firmware.Mdns.Labels.{encode}
use cc1352_firmware.Mdns.Collecting.{
  Datagram, IsMailbox, IsJudged, accepted, mdns_query_recv-accepted,
}
use cc1352_firmware.Node.Cache.{max_greybus_nodes}
use cc1352_firmware.Node.Filter.{node_filter}
use cc1352_firmware.Discovery.{query, query_round}

-- one question for pointers to "_greybus._tcp.local"
abbrev pub question : Bytes
question =
    (0 ∷ 0 ∷ 0 ∷ 0 ∷ 0 ∷ 1 ∷ 0 ∷ 0 ∷ 0 ∷ 0 ∷ 0 ∷ 0 ∷ [])
    ++ encode (
        (0x5f ∷ 0x67 ∷ 0x72 ∷ 0x65 ∷ 0x79 ∷ 0x62 ∷ 0x75 ∷ 0x73 ∷ [])
        ∷ (0x5f ∷ 0x74 ∷ 0x63 ∷ 0x70 ∷ [])
        ∷ (0x6c ∷ 0x6f ∷ 0x63 ∷ 0x61 ∷ 0x6c ∷ [])
        ∷ [])
    ++ 0 ∷ 12 ∷ 0 ∷ 1 ∷ []

question_lem : mdns_query_send query ≡ some (some question)
unfolding mdns_query_send mdns_multiquery_send
question_lem = refl

module _ (net : DatagramSocket) where
  mdns_multicast_send_lem :
      (s s' : net.Sock) (buffer : Bytes) (family : Bool) (n : ℕ)
      → net.zsock_getsockname s ≡ (pos 0, family)
      → net.zsock_sendto s (multicast_addr family) buffer ≡ (pos n, s')
      → mdns_multicast_send net s buffer ≡ (pos 0, s')
  unfolding mdns_multicast_send
  mdns_multicast_send_lem s s' buffer family n named sent = ground (arith, named, sent)

  send_query_lem :
      (s s' : net.Sock) (family : Bool) (n : ℕ)
      → net.zsock_getsockname s ≡ (pos 0, family)
      → net.zsock_sendto s (multicast_addr family) question ≡ (pos n, s')
      → send_query net s query ≡ some (pos 0, s')
  unfolding send_query
  send_query_lem s s' family n named sent =
      rw (question_lem, mdns_multicast_send_lem s s' question family n named sent) refl

module _ {net : DatagramSocket} {k : Kernel} (mail : IsMailbox net) (stack : Stack) where
  -- Where the socket is open and takes the question for "_greybus._tcp.local" to the multicast
  -- address of its family, while no more datagrams arrive than those that wait when it is sent,
  -- and the check of each of them ends with a verdict, whatever the stack holds: a round for each
  -- datagram and one more are enough, and what the round does is to hand the senders of the
  -- datagrams with a good verdict, in their order and at most as many as there may be nodes, to
  -- `node_filter`.
  pub query_round-accepted :
      (fuel descriptor : ℕ) (s s' : net.Sock) (family : Bool) (n : ℕ) (verdict : Datagram → Bool)
      (w : World k)
      → net.zsock_getsockname s ≡ (pos 0, family)
      → net.zsock_sendto s (multicast_addr family) question ≡ (pos n, s')
      → All (IsJudged stack query verdict) (mail.waiting s')
      → length (mail.waiting s') < fuel
      → (s'' : net.Sock) × (query_round net stack fuel (pos descriptor) s w
          ≡ ◌>>◌
              (node_filter (take max_greybus_nodes (accepted verdict (mail.waiting s'))))
              (return s'')
              w)
  unfolding query_round
  query_round-accepted fuel descriptor s s' family n verdict w named sent judged enough =
      let (s'', received) =
        mdns_query_recv-accepted mail stack query fuel s' max_greybus_nodes (pos 2000) verdict
          judged enough in
      (s'', rw (send_query_lem net s s' family n named sent, received) refl)
