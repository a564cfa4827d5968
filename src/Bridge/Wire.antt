-- ===== src/Bridge/Wire.antt =====
-- src/ap.c, include/hdlc.h: what a message to the AP is on the line, byte for byte.
use cc1352_firmware.Prelude.{
  take_all, ◌≢◌, ==-ne, ℕ, ◌+◌, ◌%◌, ◌≤◌, ◌<◌, ◌≡◌, refl, ◌∷◌, ◌++◌, arith, length, Bytes, lo, hi,
}
use cc1352_firmware.Prelude.Int.{pos}
use cc1352_firmware.Hdlc.{hdlc_block_send_sync}
use cc1352_firmware.System.Kernel.{Kernel}
use cc1352_firmware.System.World.{World, done, fault, out_of_bounds}
use cc1352_firmware.Greybus.Message.{
  MsgHdr, Message, hdr_bytes, gb_message_dealloc, gb_message_payload_len, gb_hdr_payload_len,
}
use cc1352_firmware.Greybus.Interface.{ap_inf_id}
use cc1352_firmware.Bridge.Table.{node_to_ap_cport}
use cc1352_firmware.Bridge.Send.{
  connection_send, send_to_ap, ap_send, gb_message_hdlc_send, send_block,
}

-- a Greybus message as the payload of an HDLC frame
abbrev pub wire : ℕ → MsgHdr → Bytes → Bytes
wire cport hdr payload = lo cport ∷ hi cport ∷ (hdr_bytes hdr ++ payload)

-- The message is whole, and fits into the block of `gb_message_hdlc_send`.
pub record IsSendable (msg : Message) : Type 0 where
  pub size_is : msg.header.size ≡ length msg.payload + 8
  pub fits : length msg.payload + 10 ≤ 256

IsSendable-len : (msg : Message) → IsSendable msg → gb_message_payload_len msg ≡ length msg.payload
unfolding gb_message_payload_len gb_hdr_payload_len
IsSendable-len msg s = omega (arith, s.size_is, s.fits)

pub length-wire :
    (cport : ℕ) (hdr : MsgHdr) (payload : Bytes)
    → length (wire cport hdr payload) ≡ length payload + 10
unfolding hdr_bytes
length-wire cport hdr payload = omega arith

module _ {k : Kernel} where
  gb_message_hdlc_send_lem :
      (msg : Message) (cport : ℕ) (w : World k)
      → IsSendable msg
      → gb_message_hdlc_send msg cport w ≡ send_block (wire cport msg.header msg.payload) 1 3 w
  unfolding gb_message_hdlc_send
  gb_message_hdlc_send_lem msg cport w s =
      rw
        (
          IsSendable-len msg s,
          take_all msg.payload (length msg.payload) refl,
          take_all (wire cport msg.header msg.payload) (msg.header.size + 2)
              (omega (arith, s.size_is, length-wire cport msg.header msg.payload)),
        )
        (ground (arith, s.fits))

  -- A message that is whole and fits into an HDLC block is put on the line as one frame, and its
  -- memory is given back; nothing else changes.
  pub ap_send_lem :
      (msg : Message) (cport : ℕ) (w : World k)
      → IsSendable msg
      → ap_send msg cport w
        ≡ done (pos 0) (record w {
          uart =
              w.uart
              ++ hdlc_block_send_sync k.crc16_ccitt w.hdlc_driver
                  (wire cport msg.header msg.payload)
                  1
                  3;
          heap = k.k_heap_free w.heap msg.ptr;
        })
  unfolding ap_send send_block gb_message_dealloc
  ap_send_lem msg cport w s = ground (arith, gb_message_hdlc_send_lem msg cport w s)

  -- A message to the AP on a connected cport is one frame to the cport of the AP.
  pub send_to_ap_lem :
      (intf_id cport ap_cport : ℕ) (msg : Message) (w : World k)
      → intf_id ≢ ap_inf_id
      → IsSendable msg
      → node_to_ap_cport w.node_ap_map intf_id cport ≡ pos ap_cport
      → ap_cport < 65536
      → send_to_ap intf_id cport msg w
        ≡ done (pos 0) (record w {
          uart =
              w.uart
              ++ hdlc_block_send_sync k.crc16_ccitt w.hdlc_driver
                  (wire ap_cport msg.header msg.payload)
                  1
                  3;
          heap = k.k_heap_free w.heap msg.ptr;
        })
  unfolding send_to_ap connection_send
  send_to_ap_lem intf_id cport ap_cport msg w other s to small =
      let word : ap_cport % 65536 ≡ ap_cport = omega arith in
      ground (arith, ==-ne intf_id ap_inf_id other, to, word, ap_send_lem msg ap_cport w s)

  -- A message whose size field, a 16-bit number, exceeds 254 overruns the block that
  -- `gb_message_hdlc_send` copies it to, whatever it holds.
  pub ap_send_overrun :
      (msg : Message) (cport : ℕ) (w : World k)
      → msg.header.size < 65536
      → 254 < msg.header.size
      → ap_send msg cport w ≡ fault out_of_bounds
  unfolding ap_send gb_message_hdlc_send gb_message_payload_len gb_hdr_payload_len
  ap_send_overrun msg cport w h l = ground arith
