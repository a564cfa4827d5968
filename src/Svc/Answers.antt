-- ===== src/Svc/Answers.antt =====
-- src/svc.c: how the SVC answers the requests whose response does not depend on its state.
use cc1352_firmware.Prelude.{
  ℕ, ◌+◌, ◌≤◌, ◌<◌, ◌≡◌, ap, [], ◌∷◌, ◌++◌, some, arith, length, bit_or, Bytes,
}
use cc1352_firmware.Prelude.Int.{pos}
use cc1352_firmware.Hdlc.{hdlc_block_send_sync}
use cc1352_firmware.System.Kernel.{Kernel}
use cc1352_firmware.System.World.{World, done}
use cc1352_firmware.Greybus.Message.{MsgHdr, Message, gb_message_dealloc, padding}
use cc1352_firmware.Bridge.Table.{node_to_ap_cport}
use cc1352_firmware.Svc.Requests.{svc_response_helper}
use cc1352_firmware.Bridge.Wire.{wire}
use cc1352_firmware.Svc.Responses.{svc_response_helper_lem}
use cc1352_firmware.Svc.Handlers.{
  gb_handle_msg, svc_inf_write, svc_empty_request_handler, svc_dme_peer_get_handler,
  svc_dme_peer_set_handler, svc_pwrm_get_rail_count_handler, svc_intf_vsys_enable_disable_handler,
  svc_interface_refclk_enable_disable_handler, svc_interface_unipro_enable_disable_handler,
  svc_interface_activate_handler, svc_interface_resume_handler,
}

-- The Greybus requests to the SVC with a fixed response: their type, and the response's payload.
pub data Answer (type : ℕ) (payload : Bytes) : Type 0 where
  intf_device_id : type ≡ 0x03 → payload ≡ [] → Answer type payload
  dme_peer_get : type ≡ 0x09 → payload ≡ 0 ∷ 0 ∷ 0x26 ∷ 0x01 ∷ 0 ∷ 0 ∷ [] → Answer type payload
  dme_peer_set : type ≡ 0x0a → payload ≡ 0 ∷ 0 ∷ [] → Answer type payload
  route_create : type ≡ 0x0b → payload ≡ [] → Answer type payload
  route_destroy : type ≡ 0x0c → payload ≡ [] → Answer type payload
  ping : type ≡ 0x13 → payload ≡ [] → Answer type payload
  rail_count_get : type ≡ 0x14 → payload ≡ 0 ∷ [] → Answer type payload
  vsys_enable : type ≡ 0x21 → payload ≡ 0 ∷ [] → Answer type payload
  vsys_disable : type ≡ 0x22 → payload ≡ 0 ∷ [] → Answer type payload
  refclk_enable : type ≡ 0x23 → payload ≡ 0 ∷ [] → Answer type payload
  refclk_disable : type ≡ 0x24 → payload ≡ 0 ∷ [] → Answer type payload
  unipro_enable : type ≡ 0x25 → payload ≡ 0 ∷ [] → Answer type payload
  unipro_disable : type ≡ 0x26 → payload ≡ 0 ∷ [] → Answer type payload
  activate : type ≡ 0x27 → payload ≡ 0 ∷ 3 ∷ [] → Answer type payload
  resume : type ≡ 0x28 → payload ≡ 0 ∷ [] → Answer type payload

Answer-fits : {type : ℕ} {payload : Bytes} → Answer type payload → length payload + 10 ≤ 256
Answer-fits (intf_device_id t p) = omega (arith, ap length p)
Answer-fits (dme_peer_get t p) = omega (arith, ap length p)
Answer-fits (dme_peer_set t p) = omega (arith, ap length p)
Answer-fits (route_create t p) = omega (arith, ap length p)
Answer-fits (route_destroy t p) = omega (arith, ap length p)
Answer-fits (ping t p) = omega (arith, ap length p)
Answer-fits (rail_count_get t p) = omega (arith, ap length p)
Answer-fits (vsys_enable t p) = omega (arith, ap length p)
Answer-fits (vsys_disable t p) = omega (arith, ap length p)
Answer-fits (refclk_enable t p) = omega (arith, ap length p)
Answer-fits (refclk_disable t p) = omega (arith, ap length p)
Answer-fits (unipro_enable t p) = omega (arith, ap length p)
Answer-fits (unipro_disable t p) = omega (arith, ap length p)
Answer-fits (activate t p) = omega (arith, ap length p)
Answer-fits (resume t p) = omega (arith, ap length p)

module _ {k : Kernel} where
  gb_handle_msg-Answer :
      (msg : Message) (payload : Bytes) (w : World k)
      → Answer msg.header.type payload
      → gb_handle_msg msg w ≡ svc_response_helper msg payload 0 w
  unfolding gb_handle_msg svc_empty_request_handler svc_dme_peer_get_handler
      svc_dme_peer_set_handler svc_pwrm_get_rail_count_handler svc_intf_vsys_enable_disable_handler
      svc_interface_refclk_enable_disable_handler svc_interface_unipro_enable_disable_handler
      svc_interface_activate_handler svc_interface_resume_handler
  gb_handle_msg-Answer msg payload w (intf_device_id t p) = rw (t, p)
  gb_handle_msg-Answer msg payload w (dme_peer_get t p) = rw (t, p)
  gb_handle_msg-Answer msg payload w (dme_peer_set t p) = rw (t, p)
  gb_handle_msg-Answer msg payload w (route_create t p) = rw (t, p)
  gb_handle_msg-Answer msg payload w (route_destroy t p) = rw (t, p)
  gb_handle_msg-Answer msg payload w (ping t p) = rw (t, p)
  gb_handle_msg-Answer msg payload w (rail_count_get t p) = rw (t, p)
  gb_handle_msg-Answer msg payload w (vsys_enable t p) = rw (t, p)
  gb_handle_msg-Answer msg payload w (vsys_disable t p) = rw (t, p)
  gb_handle_msg-Answer msg payload w (refclk_enable t p) = rw (t, p)
  gb_handle_msg-Answer msg payload w (refclk_disable t p) = rw (t, p)
  gb_handle_msg-Answer msg payload w (unipro_enable t p) = rw (t, p)
  gb_handle_msg-Answer msg payload w (unipro_disable t p) = rw (t, p)
  gb_handle_msg-Answer msg payload w (activate t p) = rw (t, p)
  gb_handle_msg-Answer msg payload w (resume t p) = rw (t, p)

  -- the line after a response to `hdr`, with the padding `pad`
  abbrev pub answered : World k → ℕ → MsgHdr → ℕ × ℕ → Bytes → Bytes
  answered w cport hdr pad payload =
      w.uart
      ++ hdlc_block_send_sync k.crc16_ccitt w.hdlc_driver
          (wire cport
            (record {
              size = 8 + length payload;
              operation_id = hdr.operation_id;
              type = bit_or 0x80 hdr.type;
              result = 0;
              pad = pad;
            })
            payload)
          1 3

  -- Where the heap has room for the response and the SVC is connected to a cport of the AP, each
  -- request with a fixed response is answered by exactly one frame, to that cport, with the id of
  -- the request, its type with the response bit and status 0; the two bytes of padding of its header
  -- are what the response's block of memory held before. Nothing else of the state changes but the
  -- heap, which gets back the blocks of the response and of the request.
  pub svc_inf_write-Answer :
      (msg : Message) (payload : Bytes) (p cport : ℕ) (h : k.Heap) (w : World k)
      → Answer msg.header.type payload
      → k.k_heap_alloc w.heap (8 + length payload) ≡ some (p, h)
      → node_to_ap_cport w.node_ap_map 0 0 ≡ pos cport
      → cport < 65536
      → svc_inf_write msg 0 w
        ≡ done (pos 0) (record w {
          uart = answered w cport msg.header (padding k h p) payload;
          heap = k.k_heap_free (k.k_heap_free h p) msg.ptr;
        })
  unfolding svc_inf_write gb_message_dealloc
  svc_inf_write-Answer msg payload p cport h w a e c small = ground (
    arith,
    gb_handle_msg-Answer msg payload w a,
    svc_response_helper_lem msg payload 0 p cport h w (Answer-fits a) e c small,
  )
