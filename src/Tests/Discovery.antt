-- ===== src/Tests/Discovery.antt =====
-- Rounds of discovery: with a fixed address, and with an answer to a query.
use cc1352_firmware.Prelude.{
  Bool, ◌==◌, List, take, ap, ◌≡◌, refl, true, [], ◌∷◌, ◌++◌, length, Bytes, arith, replicate,
}
use cc1352_firmware.Prelude.Int.{ℤ, pos, negsuc}
use cc1352_firmware.System.World.{done, ◌>>◌, return}
use cc1352_firmware.Mdns.Memory.{mdns_ntohs}
use cc1352_firmware.Mdns.Substring.{mdns_get_next_substring}
use cc1352_firmware.Mdns.Name.{mdns_string_skip, mdns_string_extract, skip_from, extract_from}
use cc1352_firmware.Mdns.Answer.{mdns_answer_check, mdns_query_recv_internal, mdns_record_parse_ptr}
use cc1352_firmware.Mdns.Labels.{encode}
use cc1352_firmware.Mdns.Receive.{DatagramSocket, Stack}
use cc1352_firmware.Mdns.Collecting.{
  Datagram, IsMailbox, IsJudged, accepted, received_into, received_size,
}
use cc1352_firmware.Node.Cache.{max_greybus_nodes}
use cc1352_firmware.Node.Filter.{node_filter}
use cc1352_firmware.Node.Announcing.{announced}
use cc1352_firmware.Discovery.{query, handler, query_round}
use cc1352_firmware.Discovery.Once.{handler-announced}
use cc1352_firmware.Discovery.Querying.{query_round-accepted}
use cc1352_firmware.Tests.Mdns.{zephyr, answer_start}
use cc1352_firmware.Tests.Life.{connected-HasRoom, nobody}
use cc1352_firmware.Tests.Samples.{connected}

handler-announced_example :
    handler 5 (3 ∷ []) connected ≡ done tt (announced connected connected-HasRoom (3 ∷ []))
handler-announced_example = handler-announced 4 (3 ∷ []) connected connected-HasRoom nobody refl

-- a socket with the datagrams that wait
abbrev polled : List Datagram → ℤ
polled [] = pos 0
polled (d ∷ ds) = pos 1

abbrev first_of : Bytes → List Datagram → ℤ × Bytes × Bytes × List Datagram
first_of buffer [] = (negsuc 10, buffer, [], [])
first_of buffer (d ∷ ds) = (pos (received_size d), received_into buffer d, d.sender, ds)

abbrev mailbox : DatagramSocket
mailbox = record {
  Sock = List Datagram;
  zsock_poll = λ s timeout. (polled s, s);
  zsock_recvfrom = λ s buffer. first_of buffer s;
  zsock_getsockname = λ s. (pos 0, true);
  zsock_sendto = λ s dest bytes. (pos (length bytes), s);
}

first_of_lem :
    (s : List Datagram) (buffer : Bytes) (d : Datagram) (ds : List Datagram)
    → s ≡ d ∷ ds
    → (s' : List Datagram) × (first_of buffer s
        ≡ (pos (received_size d), received_into buffer d, d.sender, s'))
      × (s' ≡ ds)
first_of_lem s buffer d ds e = (ds, ap (first_of buffer) e, refl)

abbrev mailbox-IsMailbox : IsMailbox mailbox
mailbox-IsMailbox = record {
  waiting = λ s. s;
  poll_nothing = λ s timeout e. ap polled e;
  poll_something = λ s timeout d ds e. ap polled e;
  poll_keeps = λ s timeout. refl;
  recv = first_of_lem;
}

abbrev blank : Stack
blank = record { buffer = λ round. replicate 100 0; namebuffer = λ round. replicate 100 0 }

-- "zephyr._greybus._tcp.local"
abbrev node_answer : Bytes
node_answer =
    answer_start 28
    ++ encode (
        zephyr
        ∷ (0x5f ∷ 0x67 ∷ 0x72 ∷ 0x65 ∷ 0x79 ∷ 0x62 ∷ 0x75 ∷ 0x73 ∷ [])
        ∷ (0x5f ∷ 0x74 ∷ 0x63 ∷ 0x70 ∷ [])
        ∷ (0x6c ∷ 0x6f ∷ 0x63 ∷ 0x61 ∷ 0x6c ∷ [])
        ∷ [])

-- an answer of a node, and a message without answers
abbrev from_node : Datagram
from_node = record { sender = 3 ∷ []; payload = node_answer }

abbrev from_other : Datagram
from_other = record { sender = 2 ∷ []; payload = replicate 12 0 }

abbrev is_node : Datagram → Bool
is_node d = length d.payload == 53

node-IsJudged : IsJudged blank query is_node from_node
unfolding mdns_query_recv_internal mdns_answer_check mdns_ntohs mdns_string_skip skip_from
    mdns_get_next_substring mdns_record_parse_ptr mdns_string_extract extract_from
node-IsJudged round = refl

other-IsJudged : IsJudged blank query is_node from_other
unfolding mdns_query_recv_internal mdns_answer_check mdns_ntohs
other-IsJudged round = refl

abbrev two_datagrams : List Datagram
two_datagrams = from_other ∷ from_node ∷ []

query_round-accepted_example :
    (s : List Datagram) × (query_round mailbox blank 3 (pos 7) two_datagrams connected
      ≡ ◌>>◌
          (node_filter (take max_greybus_nodes (accepted is_node two_datagrams)))
          (return s)
          connected)
query_round-accepted_example =
    query_round-accepted mailbox-IsMailbox blank 3 7 two_datagrams two_datagrams true 37 is_node
      connected refl refl (other-IsJudged, (node-IsJudged, tt)) (omega arith)

-- the sender of the answer is the one that is found
found_run : take max_greybus_nodes (accepted is_node two_datagrams) ≡ (3 ∷ []) ∷ []
found_run = refl
