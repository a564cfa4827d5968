-- ===== src/Invariant/Transfers.antt =====
-- src/node.c: messages to nodes and from them.
use cc1352_firmware.Prelude.{
  ℕ, zero, suc, ◌+◌, ◌-◌, ◌∷◌, ◌++◌, [], List, Option, none, some, Bool, drop, leb, get_elem?,
  Bytes,
}
use cc1352_firmware.Prelude.Int.{ℤ}
use cc1352_firmware.System.Kernel.{Kernel}
use cc1352_firmware.System.World.{IntfPtr, NodeItem, in_array, return}
use cc1352_firmware.Svc.Requests.{svc_send_module_removed}
use cc1352_firmware.System.Keeps.{
  Keeps, Keeps-bind, Keeps-then, Keeps-if, Keeps-int, Keeps-count, Keeps-gets, Keeps-in_array,
  Keeps-option, Keeps-return, keeps_rules,
}
use cc1352_firmware.Greybus.Message.{Message}
use cc1352_firmware.Node.Cache.{node_cache_find_by_sock}
use cc1352_firmware.Node.Transfer.{
  zsock_send, write_from, write_data, svc_send_module_removed_by_sock, send_failed, gb_message_send,
  node_inf_write,
}
use cc1352_firmware.Node.Receive.{
  ReadData, Received, Events, zsock_recv, read_from, read_data, word_at, read_hdr, receive_payload,
  gb_message_receive, node_readable, node_event, node_events, node_rx_round,
}
use cc1352_firmware.Invariant.{IsSound}
use cc1352_firmware.Invariant.Messages.{
  gb_message_alloc-Keeps, gb_message_dealloc-Keeps, send_to_ap-Keeps,
}
use cc1352_firmware.Invariant.Requests.{svc_send_module_removed-Keeps}

module _ {k : Kernel} where
  zsock_send-Keeps : (sock : ℤ) (bytes : Bytes) → Keeps (IsSound {k = k}) (zsock_send sock bytes)
  unfolding zsock_send
  zsock_send-Keeps sock bytes = record { kept = λ w s. s }

  write_from-Keeps :
      (fuel : ℕ) (sock : ℤ) (rest : Bytes) (transmitted : ℕ)
      → Keeps (IsSound {k = k}) (write_from fuel sock rest transmitted)
  unfolding write_from
  write_from-Keeps fuel sock [] transmitted = search keeps_rules
  write_from-Keeps zero sock (b ∷ rest) transmitted = search keeps_rules
  write_from-Keeps (suc fuel) sock (b ∷ rest) transmitted =
      Keeps-bind _ _ (zsock_send-Keeps sock (b ∷ rest)) λ ret.
        Keeps-int ret _ _ (λ e. Keeps-return _)
          (λ n. write_from-Keeps fuel sock (drop n (b ∷ rest)) (transmitted + n))

  write_data-Keeps :
      (fuel : ℕ) (sock : ℤ) (bytes : Bytes) → Keeps (IsSound {k = k}) (write_data fuel sock bytes)
  unfolding write_data
  write_data-Keeps fuel sock bytes = write_from-Keeps fuel sock bytes 0

  svc_send_module_removed_by_sock-Keeps :
      (sock : ℤ) → Keeps (IsSound {k = k}) (svc_send_module_removed_by_sock sock)
  unfolding svc_send_module_removed_by_sock
  svc_send_module_removed_by_sock-Keeps sock = Keeps-bind _ _ (Keeps-gets _) λ cache.
      Keeps-option (node_cache_find_by_sock cache sock) _ _ (Keeps-return _) λ at e.
        Keeps-bind (in_array (get_elem? cache at)) _ (Keeps-in_array _) λ item.
          Keeps-then _ _ (svc_send_module_removed-Keeps (IntfPtr.node_intf (NodeItem.inf item)))
            (Keeps-return _)

  send_failed-Keeps : (sock ret : ℤ) → Keeps (IsSound {k = k}) (send_failed sock ret)
  unfolding send_failed
  send_failed-Keeps sock ret = search (keeps_rules, svc_send_module_removed_by_sock-Keeps)

  gb_message_send-Keeps :
      (fuel : ℕ) (sock : ℤ) (msg : Message) (cport : ℕ)
      → Keeps (IsSound {k = k}) (gb_message_send fuel sock msg cport)
  unfolding gb_message_send
  gb_message_send-Keeps fuel sock msg cport =
      search (keeps_rules, write_data-Keeps, send_failed-Keeps) depth 14

  pub node_inf_write-Keeps :
      (fuel p : ℕ) (msg : Message) (cport_id : ℕ)
      → Keeps (IsSound {k = k}) (node_inf_write fuel p msg cport_id)
  unfolding node_inf_write
  node_inf_write-Keeps fuel p msg cport_id =
      search
        (
          keeps_rules, gb_message_send-Keeps, svc_send_module_removed-Keeps,
          gb_message_dealloc-Keeps,
        )
        depth 16

  zsock_recv-Keeps : (sock : ℤ) (len : ℕ) → Keeps (IsSound {k = k}) (zsock_recv sock len)
  unfolding zsock_recv
  zsock_recv-Keeps sock len = record { kept = λ w s. s }

  read_from-Keeps :
      (fuel : ℕ) (sock : ℤ) (len received : ℕ) (bytes : Bytes)
      → Keeps (IsSound {k = k}) (read_from fuel sock len received bytes)
  unfolding read_from
  read_from-Keeps zero sock len received bytes = search keeps_rules
  read_from-Keeps (suc fuel) sock len received bytes =
      Keeps-if (leb len received) _ _ (Keeps-return _) (
        Keeps-bind _ _ (zsock_recv-Keeps sock (len - received)) λ r.
          Keeps-count (ReadData.ret r) _ _ _ (λ e. Keeps-return _) (Keeps-return _)
            (λ m. read_from-Keeps fuel sock len (received + suc m) (bytes ++ ReadData.bytes r)))

  read_data-Keeps :
      (fuel : ℕ) (sock : ℤ) (len : ℕ) → Keeps (IsSound {k = k}) (read_data fuel sock len)
  unfolding read_data
  read_data-Keeps fuel sock len = read_from-Keeps fuel sock len 0 []

  word_at-Keeps : (bytes : Bytes) (i : ℕ) → Keeps (IsSound {k = k}) (word_at bytes i)
  unfolding word_at
  word_at-Keeps bytes i = search keeps_rules depth 8

  read_hdr-Keeps : (bytes : Bytes) → Keeps (IsSound {k = k}) (read_hdr bytes)
  unfolding read_hdr
  read_hdr-Keeps bytes = search (keeps_rules, word_at-Keeps) depth 8

  -- the payload behind a header
  received-Keeps :
      (fuel : ℕ) (sock : ℤ) (flag : Bool) (cport_id : ℕ) (allocated : Option Message)
      → Keeps (IsSound {k = k}) (receive_payload fuel sock flag cport_id allocated)
  unfolding receive_payload
  received-Keeps fuel sock flag cport_id none = Keeps-return _
  received-Keeps fuel sock flag cport_id (some msg) =
      search (keeps_rules, read_data-Keeps, gb_message_dealloc-Keeps) depth 8

  gb_message_receive-Keeps :
      (fuel : ℕ) (sock : ℤ) (flag : Bool)
      → Keeps (IsSound {k = k}) (gb_message_receive fuel sock flag)
  unfolding gb_message_receive
  gb_message_receive-Keeps fuel sock flag =
      search
        (
          keeps_rules, read_data-Keeps, word_at-Keeps, read_hdr-Keeps, gb_message_alloc-Keeps,
          received-Keeps,
        )
        depth 18

  node_readable-Keeps :
      (fuel : ℕ) (sock : ℤ) (flag : Bool) → Keeps (IsSound {k = k}) (node_readable fuel sock flag)
  unfolding node_readable
  node_readable-Keeps fuel sock flag = Keeps-bind _ _ (Keeps-gets _) λ cache.
      Keeps-option (node_cache_find_by_sock cache sock) _ _ (Keeps-return flag) λ at e.
        Keeps-bind (in_array (get_elem? cache at)) _ (Keeps-in_array _) λ item.
          let gone = IntfPtr.node_intf (NodeItem.inf item) in
          Keeps-bind (gb_message_receive fuel sock flag) _ (gb_message_receive-Keeps fuel sock flag)
            λ r.
              let removed =
                Keeps-then (svc_send_module_removed gone) (return (Received.closed r))
                  (svc_send_module_removed-Keeps gone) (Keeps-return _) in
              Keeps-if (Received.closed r) _ _ removed (
                Keeps-option (Received.msg r) _ _ removed λ msg there.
                  Keeps-then _ _ (send_to_ap-Keeps (NodeItem.id item) (Received.cport_id r) msg)
                    (Keeps-return _))

  node_event-Keeps :
      (fuel : ℕ) (sock : ℤ) (e : Events) (flag : Bool)
      → Keeps (IsSound {k = k}) (node_event fuel sock e flag)
  unfolding node_event
  node_event-Keeps fuel sock e flag =
      search (keeps_rules, svc_send_module_removed_by_sock-Keeps, node_readable-Keeps) depth 8

  node_events-Keeps :
      (fuel : ℕ) (fds : List (ℤ × Events)) (flag : Bool)
      → Keeps (IsSound {k = k}) (node_events fuel fds flag)
  unfolding node_events
  node_events-Keeps fuel [] flag = Keeps-return flag
  node_events-Keeps fuel ((sock, e) ∷ fds) flag =
      Keeps-bind _ _ (node_event-Keeps fuel sock e flag) (λ flag'. node_events-Keeps fuel fds flag')

  pub node_rx_round-Keeps :
      (fuel : ℕ) (pipe : ℤ) (woken : Bool) (socks : List ℤ) (events : List Events) (flag : Bool)
      → Keeps (IsSound {k = k}) (node_rx_round fuel pipe woken socks events flag)
  unfolding node_rx_round
  node_rx_round-Keeps fuel pipe woken socks events flag =
      search (keeps_rules, zsock_recv-Keeps, node_events-Keeps) depth 8
