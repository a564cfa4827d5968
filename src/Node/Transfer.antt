-- ===== src/Node/Transfer.antt =====
-- src/node.c: how a message is sent to a node over its socket.
use cc1352_firmware.Prelude.{
  ℕ, zero, suc, ◌+◌, [], ◌∷◌, none, some, ltb, if◌then◌else◌, length, drop, take, get_elem?, Bytes,
  lo, hi, not,
}
use cc1352_firmware.Prelude.Int.{ℤ, pos, negsuc, is_negative}
use cc1352_firmware.Prelude.Assoc.{lookup}
use cc1352_firmware.System.Kernel.{Kernel}
use cc1352_firmware.System.World.{
  IntfPtr, NodeInterface, NodeItem, out_of_bounds, out_of_fuel, done, M, ◌>>=◌, ◌>>◌, return, fail,
  gets, live, in_array,
}
use cc1352_firmware.Greybus.Message.{
  Message, sizeof_hdr, gb_message_payload_len, hdr_bytes, gb_message_dealloc,
}
use cc1352_firmware.Node.Cache.{int_eq, node_cache_find_by_sock}
use cc1352_firmware.Svc.Requests.{svc_send_module_removed}

module _ {k : Kernel} where
  -- one `zsock_send`
  unfoldable pub zsock_send : ℤ → Bytes → M k ℤ
  zsock_send sock bytes w =
      let (ret, n) = k.zsock_send w.net sock bytes in done ret (record w { net = n })

  -- the loop of `write_data` with `rest` left to send, and fuel for the calls of `zsock_send`
  unfoldable pub write_from : ℕ → ℤ → Bytes → ℕ → M k ℤ
  write_from fuel sock [] transmitted = return (pos transmitted)
  write_from zero sock (b ∷ rest) transmitted = fail out_of_fuel
  write_from (suc fuel) sock (b ∷ rest) transmitted = do
    ret ← zsock_send sock (b ∷ rest)
    elim ret [
      | negsuc e ↦ return (negsuc e)
      | pos n ↦ write_from fuel sock (drop n (b ∷ rest)) (transmitted + n)
    ]

  unfoldable pub write_data : ℕ → ℤ → Bytes → M k ℤ
  write_data fuel sock bytes = write_from fuel sock bytes 0

  unfoldable pub svc_send_module_removed_by_sock : ℤ → M k (Unit {0})
  svc_send_module_removed_by_sock sock = do
    cache ← gets (λ w. w.node_cache)
    elim (node_cache_find_by_sock cache sock) [
      | none ↦ return tt
      | some at ↦ (do
        item ← in_array (get_elem? cache at)
        svc_send_module_removed (IntfPtr.node_intf (NodeItem.inf item))
        return tt)
    ]

  -- `early_exit` of `gb_message_send`
  unfoldable pub send_failed : ℤ → ℤ → M k ℤ
  send_failed sock ret = do svc_send_module_removed_by_sock sock; return ret

  unfoldable pub gb_message_send : ℕ → ℤ → Message → ℕ → M k ℤ
  gb_message_send fuel sock msg cport =
      let len = gb_message_payload_len msg in
      do
        ret ← write_data fuel sock (lo cport ∷ hi cport ∷ [])
        if not (int_eq ret (pos 2)) then send_failed sock ret else (do
          ret ← write_data fuel sock (hdr_bytes msg.header)
          if not (int_eq ret (pos sizeof_hdr))
              then send_failed sock ret
              else if ltb (length msg.payload) len
              then fail out_of_bounds
              else (do
                ret ← write_data fuel sock (take len msg.payload)
                if not (int_eq ret (pos len)) then send_failed sock ret else return (pos 0)))

  -- `node_inf_write`: after a failed send the module is removed here too.
  unfoldable pub node_inf_write : ℕ → ℕ → Message → ℕ → M k ℤ
  node_inf_write fuel p msg cport_id = do
    intfs ← gets (λ w. w.interfaces)
    intf ← live (lookup p intfs)
    ctrls ← gets (λ w. w.node_control_data)
    sock ← live (lookup (NodeInterface.ctrl_data intf) ctrls)
    ret ← gb_message_send fuel sock msg cport_id
    (if is_negative ret
        then (do svc_send_module_removed (IntfPtr.node_intf p); return tt)
        else return tt)
    gb_message_dealloc msg
    return ret
