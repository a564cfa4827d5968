-- ===== src/Node/Receive.antt =====
-- src/node.c: how a message of a node is received, and what the receiving thread does with the
-- sockets that a poll reports.
use cc1352_firmware.Prelude.{
  ℕ, zero, suc, ◌+◌, ◌-◌, ◌*◌, Bool, ◌||◌, not, List, [], ◌∷◌, ◌++◌, Option, none, some, leb,
  if◌then◌else◌, get_elem?, Bytes, get_or,
}
use cc1352_firmware.Prelude.Int.{ℤ, pos, negsuc}
use cc1352_firmware.System.Kernel.{Kernel}
use cc1352_firmware.System.World.{
  IntfPtr, NodeItem, out_of_fuel, done, M, ◌>>=◌, ◌>>◌, return, fail, gets, in_array, when,
}
use cc1352_firmware.Greybus.Message.{
  MsgHdr, Message, sizeof_hdr, gb_hdr_payload_len, gb_message_payload_len, gb_message_alloc,
  gb_message_dealloc,
}
use cc1352_firmware.Bridge.Send.{send_to_ap}
use cc1352_firmware.Svc.Requests.{svc_send_module_removed}
use cc1352_firmware.Node.Cache.{int_eq, node_cache_find_by_sock}
use cc1352_firmware.Node.Transfer.{svc_send_module_removed_by_sock}

-- What `read_data` returns, and the bytes that it has written.
pub record ReadData : Type 0 where
  pub ret : ℤ
  pub bytes : Bytes

-- `struct gb_message_in_transport`, and the flag that says that the peer has closed the socket
pub record Received : Type 0 where
  pub cport_id : ℕ
  pub msg : Option Message
  pub closed : Bool

-- the events that a poll reports of a socket
pub record Events : Type 0 where
  pub pollnval : Bool
  pub pollhup : Bool
  pub pollerr : Bool
  pub pollin : Bool

abbrev pub nothing : Bool → Received
nothing closed = record { cport_id = 0; msg = none; closed = closed }

-- the sockets of the cache that a poll looks at
abbrev pub pollfds : List NodeItem → List ℤ
pollfds [] = []
pollfds (item ∷ cache) = item.sock ∷ pollfds cache

-- the same with the events that the poll reports of each
abbrev pub revents : List ℤ → List Events → List (ℤ × Events)
revents [] events = []
revents (sock ∷ socks) [] = []
revents (sock ∷ socks) (e ∷ events) = (sock, e) ∷ revents socks events

module _ {k : Kernel} where
  -- one `zsock_recv`
  unfoldable pub zsock_recv : ℤ → ℕ → M k ReadData
  zsock_recv sock len w =
      let (ret, bytes, n) = k.zsock_recv w.net sock len in
      done (record { ret = ret; bytes = bytes }) (record w { net = n })

  -- the loop of `read_data` with `received` bytes read, which are `bytes`, and fuel for the calls
  -- of `zsock_recv`
  unfoldable pub read_from : ℕ → ℤ → ℕ → ℕ → Bytes → M k ReadData
  read_from zero sock len received bytes =
      if leb len received
      then return (record { ret = pos received; bytes = bytes })
      else fail out_of_fuel
  read_from (suc fuel) sock len received bytes =
      let more : ℕ → Bytes → M k ReadData =
        λ n new. read_from fuel sock len (received + n) (bytes ++ new) in
      if leb len received then return (record { ret = pos received; bytes = bytes }) else (do
        r ← zsock_recv sock (len - received)
        elim (ReadData.ret r) [
          | negsuc e ↦ return (record { ret = negsuc e; bytes = bytes })
          | pos zero ↦ return (record { ret = pos 0; bytes = bytes })
          | pos (suc m) ↦ more (suc m) (ReadData.bytes r)
        ])

  unfoldable pub read_data : ℕ → ℤ → ℕ → M k ReadData
  read_data fuel sock len = read_from fuel sock len 0 []

  -- a byte of what was read
  unfoldable pub word_at : Bytes → ℕ → M k ℕ
  word_at bytes i = do
    low ← in_array (get_elem? bytes i)
    high ← in_array (get_elem? bytes (i + 1))
    return (low + 256 * high)

  -- the header in the eight bytes that were read
  unfoldable pub read_hdr : Bytes → M k MsgHdr
  read_hdr bytes = do
    size ← word_at bytes 0
    operation_id ← word_at bytes 2
    type ← in_array (get_elem? bytes 4)
    result ← in_array (get_elem? bytes 5)
    return (record {
      size = size;
      operation_id = operation_id;
      type = type;
      result = result;
      pad = (get_or bytes 6 0, get_or bytes 7 0);
    })

  -- the end of `gb_message_receive`, with the message that was allocated for the header
  unfoldable pub receive_payload : ℕ → ℤ → Bool → ℕ → Option Message → M k Received
  receive_payload fuel sock flag cport_id none = return (nothing flag)
  receive_payload fuel sock flag cport_id (some msg) = do
    p ← read_data fuel sock (gb_message_payload_len msg)
    if not (int_eq (ReadData.ret p) (pos (gb_message_payload_len msg)))
        then (do gb_message_dealloc msg; return (nothing (int_eq (ReadData.ret p) (pos 0))))
        else return (record {
          cport_id = cport_id;
          msg = some (record msg { payload = ReadData.bytes p });
          closed = flag;
        })

  -- The flag keeps its value where nothing sets it.
  unfoldable pub gb_message_receive : ℕ → ℤ → Bool → M k Received
  unfolding receive_payload
  gb_message_receive fuel sock flag = do
    c ← read_data fuel sock 2
    if not (int_eq (ReadData.ret c) (pos 2))
        then return (nothing (int_eq (ReadData.ret c) (pos 0)))
        else (do
          cport_id ← word_at (ReadData.bytes c) 0
          r ← read_data fuel sock sizeof_hdr
          if not (int_eq (ReadData.ret r) (pos sizeof_hdr))
              then return (nothing (int_eq (ReadData.ret r) (pos 0)))
              else (do
                hdr ← read_hdr (ReadData.bytes r)
                allocated ←
                    gb_message_alloc (gb_hdr_payload_len hdr) hdr.type hdr.operation_id hdr.result
                receive_payload fuel sock flag cport_id allocated))

  -- `ZSOCK_POLLIN` of a node's socket; the result is the flag of the thread
  unfoldable pub node_readable : ℕ → ℤ → Bool → M k Bool
  node_readable fuel sock flag = do
    cache ← gets (λ w. w.node_cache)
    elim (node_cache_find_by_sock cache sock) [
      | none ↦ return flag
      | some at ↦ (do
        item ← in_array (get_elem? cache at)
        r ← gb_message_receive fuel sock flag
        if Received.closed r
            then (do
              svc_send_module_removed (IntfPtr.node_intf (NodeItem.inf item))
              return (Received.closed r))
            else elim (Received.msg r) [
              | none ↦ (do
                svc_send_module_removed (IntfPtr.node_intf (NodeItem.inf item))
                return (Received.closed r))
              | some msg ↦ (do
                send_to_ap (NodeItem.id item) (Received.cport_id r) msg
                return (Received.closed r))
            ])
    ]

  -- one socket that the poll has looked at
  unfoldable pub node_event : ℕ → ℤ → Events → Bool → M k Bool
  node_event fuel sock e flag =
      if Events.pollnval e || Events.pollhup e || Events.pollerr e
      then (do svc_send_module_removed_by_sock sock; return flag)
      else if Events.pollin e
      then node_readable fuel sock flag
      else return flag

  unfoldable pub node_events : ℕ → List (ℤ × Events) → Bool → M k Bool
  node_events fuel [] flag = return flag
  node_events fuel ((sock, e) ∷ fds) flag = do
    flag' ← node_event fuel sock e flag
    node_events fuel fds flag'

  -- The part of a round of the loop of `node_rx_thread_entry` behind the poll, which reports whether
  -- the pipe and which of the sockets have events. The cache may have changed during the poll.
  unfoldable pub node_rx_round : ℕ → ℤ → Bool → List ℤ → List Events → Bool → M k Bool
  node_rx_round fuel pipe woken socks events flag = do
    when woken (do zsock_recv pipe 1; return tt)
    node_events fuel (revents socks events) flag
