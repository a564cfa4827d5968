-- ===== src/Bridge/Send.antt =====
-- src/ap.c, `gb_message_hdlc_send` of include/hdlc.h, and `connection_send` of src/apbridge.c.
use cc1352_firmware.Prelude.{
  ℕ, ◌+◌, ◌%◌, ◌||◌, ◌∷◌, ◌++◌, ltb, ◌==◌, if◌then◌else◌, length, take, get_elem?, Bytes, lo, hi,
}
use cc1352_firmware.Prelude.Int.{ℤ, pos, negsuc}
use cc1352_firmware.Hdlc.{hdlc_max_block_size, hdlc_block_send_sync}
use cc1352_firmware.System.Kernel.{Kernel}
use cc1352_firmware.System.World.{
  IntfPtr, out_of_bounds, M, ◌>>=◌, ◌>>◌, return, fail, gets, modify, non_null, in_array,
}
use cc1352_firmware.Greybus.Message.{
  Message, sizeof_hdr, gb_message_payload_len, hdr_bytes, gb_message_dealloc,
}
use cc1352_firmware.Greybus.Interface.{ap_inf_id}
use cc1352_firmware.Bridge.Table.{node_to_ap_cport}

abbrev pub address_greybus : ℕ
address_greybus = 0x01

-- The `write` callbacks, by the interface that holds them.
abbrev pub WriteCallback : Kernel → Type 0
WriteCallback k = IntfPtr → Message → ℕ → M k ℤ

module _ {k : Kernel} where
  -- `hdlc_block_send_sync` on the serial line
  unfoldable pub send_block : Bytes → ℕ → ℕ → M k (Unit {0})
  send_block buffer address control = modify (λ w. record w {
    uart = w.uart ++ hdlc_block_send_sync k.crc16_ccitt w.hdlc_driver buffer address control;
  })

  -- `gb_message_hdlc_send` copies the message into a buffer of one block.
  unfoldable pub gb_message_hdlc_send : Message → ℕ → M k (Unit {0})
  gb_message_hdlc_send msg cport =
      let len = gb_message_payload_len msg in
      if ltb hdlc_max_block_size (2 + sizeof_hdr + len) || ltb (length msg.payload) len
      then fail out_of_bounds
      else send_block
          (take (msg.header.size + 2)
            (lo cport ∷ hi cport ∷ (hdr_bytes msg.header ++ take len msg.payload)))
          address_greybus 0x03

  -- `ap_send` frees the message.
  unfoldable pub ap_send : Message → ℕ → M k ℤ
  ap_send msg cport = do gb_message_hdlc_send msg cport; gb_message_dealloc msg; return (pos 0)

  -- `connection_send`. The callbacks are a parameter, since they call this function themselves.
  unfoldable pub connection_send : WriteCallback k → ℕ → ℕ → Message → M k ℤ
  connection_send write intf_id intf_cport msg =
      if intf_id == ap_inf_id
      then (do
        map ← gets (λ w. w.node_ap_map)
        item ← in_array (get_elem? map intf_cport)
        intf ← non_null item.node_intf
        write intf msg item.node_cport)
      else (do
        map ← gets (λ w. w.node_ap_map)
        elim (node_to_ap_cport map intf_id intf_cport) [
          | negsuc e ↦ return (negsuc e)
          | pos cport ↦ ap_send msg (cport % 65536)
        ])

  -- What `connection_send` runs for a sender that is not the AP: no callback is reached.
  unfoldable pub send_to_ap : ℕ → ℕ → Message → M k ℤ
  send_to_ap = connection_send (λ intf msg cport. fail out_of_bounds)
