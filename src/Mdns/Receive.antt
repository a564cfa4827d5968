-- ===== src/Mdns/Receive.antt =====
-- src/mdns.c: how the answers to a query are collected from the socket.
use cc1352_firmware.Prelude.{
  ℕ, zero, suc, ◌+◌, Bool, true, false, ◌&&◌, [], ◌∷◌, ◌++◌, List, Option, none, some, ltb,
  if◌then◌else◌, length, Bytes,
}
use cc1352_firmware.Prelude.Int.{ℤ, pos, negsuc}
use cc1352_firmware.Mdns.Memory.{◌>>=◌}
use cc1352_firmware.Mdns.Answer.{mdns_query_recv_internal}

abbrev pub mdns_response_buffer_size : ℕ
mdns_response_buffer_size = 100

-- the address and the port that a datagram goes to
pub data Destination : Type 0 where
  ipv6 : Bytes → ℕ → Destination
  ipv4 : ℕ → ℕ → Destination

-- The network library's socket for datagrams. A received datagram is written over the buffer; the
-- result is the return value, the buffer, the sender's address and the new state.
pub record DatagramSocket : Type 1 where
  pub Sock : Type 0
  pub zsock_poll : Sock → ℤ → ℤ × Sock
  pub zsock_recvfrom : Sock → Bytes → ℤ × Bytes × Bytes × Sock
  -- the return value, and whether the family of the socket's name is AF_INET6
  pub zsock_getsockname : Sock → ℤ × Bool
  pub zsock_sendto : Sock → Destination → Bytes → ℤ × Sock

-- What the stack holds in a round in the places of the buffer for the datagram and of the buffer
-- for a name: neither is initialised.
pub record Stack : Type 0 where
  pub buffer : ℕ → Bytes
  pub namebuffer : ℕ → Bytes

abbrev is_positive : ℤ → Bool
is_positive (pos (suc n)) = true
is_positive _ = false

module _ (net : DatagramSocket) (stack : Stack) (query : Bytes) where
  -- `mdns_query_recv_internal`, which returns 1 and the address where the sender is a node
  unfoldable pub receive_one : ℕ → net.Sock → Option (Option Bytes × net.Sock)
  receive_one round sock =
      let (ret, buffer, addr, sock') = net.zsock_recvfrom sock (stack.buffer round) in
      elim ret [
        | negsuc e ↦ some (none, sock')
        | pos data_size ↦ (do
          found ← mdns_query_recv_internal buffer data_size query (stack.namebuffer round)
          some (if found then some addr else none, sock'))
      ]

  abbrev pub with_found : Option Bytes → List Bytes → List Bytes
  with_found none addr_list = addr_list
  with_found (some addr) addr_list = addr_list ++ addr ∷ []

  -- the loop of `mdns_query_recv`, with fuel for its rounds; the first `total` addresses of the
  -- list are those that were found, and no result stands for a read outside of memory, and for
  -- the end of the fuel
  unfoldable pub receive_from :
      ℕ → ℕ → ℤ → net.Sock → ℕ → List Bytes → Option (List Bytes × net.Sock)
  receive_from zero round ret sock addr_list_len addr_list = none
  receive_from (suc fuel) round ret sock addr_list_len addr_list =
      let rest : ℤ → net.Sock → List Bytes → Option (List Bytes × net.Sock) =
        λ ret' sock' addr_list'.
          receive_from fuel (round + 1) ret' sock' addr_list_len addr_list' in
      if is_positive ret && ltb (length addr_list) addr_list_len
      then (do
        one ← receive_one round sock
        (let (polled, sock') = net.zsock_poll one.1 (pos 0) in
            rest polled sock' (with_found one.0 addr_list)))
      else some (addr_list, sock)

  -- `mdns_query_recv`; the return value is the length of the list
  unfoldable pub mdns_query_recv : ℕ → net.Sock → ℕ → ℤ → Option (List Bytes × net.Sock)
  unfolding receive_from
  mdns_query_recv fuel sock addr_list_len timeout =
      let (ret, sock') = net.zsock_poll sock timeout in
      receive_from fuel 0 ret sock' addr_list_len []
