-- ===== src/LocalNode/Answers.antt =====
-- src/local_node.c: how the board answers the control requests of the AP.
use cc1352_firmware.Prelude.{
  ℕ, ◌+◌, ◌%◌, ◌≤◌, ◌<◌, ◌≡◌, ap, [], ◌∷◌, some, arith, length, bit_or, Bytes,
}
use cc1352_firmware.Prelude.Int.{pos}
use cc1352_firmware.System.Kernel.{Kernel}
use cc1352_firmware.System.World.{World, done}
use cc1352_firmware.Greybus.Message.{Message, gb_message_dealloc, padding}
use cc1352_firmware.Bridge.Table.{node_to_ap_cport}
use cc1352_firmware.Bridge.Send.{connection_send, send_to_ap}
use cc1352_firmware.Bridge.Wire.{ap_send_lem}
use cc1352_firmware.Svc.Responses.{gb_message_response_alloc_lem}
use cc1352_firmware.Svc.Answers.{answered}
use cc1352_firmware.LocalNode.{
  manifest, response_helper, control_protocol_handle, intf_write,
  control_protocol_cport_shutdown_handler, control_protocol_version_handler,
  control_protocol_get_manifest_size_handler, control_protocol_get_manifest_handler,
  control_protocol_empty_handler,
}

-- The requests of the control protocol that the board answers: their type, and the response.
pub data ControlAnswer (type : ℕ) (payload : Bytes) : Type 0 where
  cport_shutdown : type ≡ 0x00 → payload ≡ [] → ControlAnswer type payload
  version : type ≡ 0x01 → payload ≡ 0 ∷ 1 ∷ [] → ControlAnswer type payload
  get_manifest_size : type ≡ 0x03 → payload ≡ 60 ∷ 0 ∷ [] → ControlAnswer type payload
  get_manifest : type ≡ 0x04 → payload ≡ manifest → ControlAnswer type payload
  connected : type ≡ 0x05 → payload ≡ [] → ControlAnswer type payload
  disconnecting : type ≡ 0x0c → payload ≡ [] → ControlAnswer type payload
  disconnected : type ≡ 0x06 → payload ≡ [] → ControlAnswer type payload
  timesync_enable : type ≡ 0x07 → payload ≡ [] → ControlAnswer type payload
  timesync_disable : type ≡ 0x08 → payload ≡ [] → ControlAnswer type payload
  timesync_authoritative : type ≡ 0x09 → payload ≡ [] → ControlAnswer type payload
  intf_hibernate_abort : type ≡ 0x15 → payload ≡ [] → ControlAnswer type payload

ControlAnswer-fits :
    {type : ℕ} {payload : Bytes} → ControlAnswer type payload → length payload + 10 ≤ 256
unfolding manifest
ControlAnswer-fits (cport_shutdown t p) = omega (arith, ap length p)
ControlAnswer-fits (version t p) = omega (arith, ap length p)
ControlAnswer-fits (get_manifest_size t p) = omega (arith, ap length p)
ControlAnswer-fits (get_manifest t p) = omega (arith, ap length p)
ControlAnswer-fits (connected t p) = omega (arith, ap length p)
ControlAnswer-fits (disconnecting t p) = omega (arith, ap length p)
ControlAnswer-fits (disconnected t p) = omega (arith, ap length p)
ControlAnswer-fits (timesync_enable t p) = omega (arith, ap length p)
ControlAnswer-fits (timesync_disable t p) = omega (arith, ap length p)
ControlAnswer-fits (timesync_authoritative t p) = omega (arith, ap length p)
ControlAnswer-fits (intf_hibernate_abort t p) = omega (arith, ap length p)

module _ {k : Kernel} where
  control_protocol_handle-Answer :
      (msg : Message) (payload : Bytes) (w : World k)
      → ControlAnswer msg.header.type payload
      → control_protocol_handle msg w ≡ response_helper msg payload 0 0 w
  unfolding control_protocol_handle manifest control_protocol_cport_shutdown_handler
      control_protocol_version_handler control_protocol_get_manifest_size_handler
      control_protocol_get_manifest_handler control_protocol_empty_handler
  control_protocol_handle-Answer msg payload w (cport_shutdown t p) = rw (t, p)
  control_protocol_handle-Answer msg payload w (version t p) = rw (t, p)
  control_protocol_handle-Answer msg payload w (get_manifest_size t p) = rw (t, p)
  control_protocol_handle-Answer msg payload w (get_manifest t p) = rw (t, p)
  control_protocol_handle-Answer msg payload w (connected t p) = rw (t, p)
  control_protocol_handle-Answer msg payload w (disconnecting t p) = rw (t, p)
  control_protocol_handle-Answer msg payload w (disconnected t p) = rw (t, p)
  control_protocol_handle-Answer msg payload w (timesync_enable t p) = rw (t, p)
  control_protocol_handle-Answer msg payload w (timesync_disable t p) = rw (t, p)
  control_protocol_handle-Answer msg payload w (timesync_authoritative t p) = rw (t, p)
  control_protocol_handle-Answer msg payload w (intf_hibernate_abort t p) = rw (t, p)

  response_helper_lem :
      (msg : Message) (payload : Bytes) (p cport : ℕ) (h : k.Heap) (w : World k)
      → length payload + 10 ≤ 256
      → k.k_heap_alloc w.heap (8 + length payload) ≡ some (p, h)
      → node_to_ap_cport w.node_ap_map 2 0 ≡ pos cport
      → cport < 65536
      → response_helper msg payload 0 0 w
        ≡ done tt (record w {
          uart = answered w cport msg.header (padding k h p) payload;
          heap = k.k_heap_free h p;
        })
  unfolding response_helper send_to_ap connection_send
  response_helper_lem msg payload p cport h w l e c small =
      let word : cport % 65536 ≡ cport = omega arith in
      let resp : Message = record {
        ptr = p;
        block = 8 + length payload;
        header = record {
          size = 8 + length payload;
          operation_id = msg.header.operation_id;
          type = bit_or 0x80 msg.header.type;
          result = 0;
          pad = padding k h p;
        };
        payload = payload;
      } in
      ground (
        arith,
        gb_message_response_alloc_lem payload msg.header.type msg.header.operation_id 0 p h w
            (omega arith) e,
        ap_send_lem resp cport (record w { heap = h }) (record { size_is = omega arith; fits = l }),
        word,
      )

  -- Where the control cport of the board is connected and the heap has room, a control request
  -- that the board knows is answered by exactly one frame to the cport of the AP that it is
  -- connected with: for the version 0.1, for the size of the manifest 60, for the manifest its
  -- bytes, and else nothing, with the id of the request, its type with the response bit and status
  -- 0; the two bytes of padding of its header are what the response's block of memory held before.
  -- Nothing else of the state changes but the heap, which gets back the blocks of the response and
  -- of the request.
  pub intf_write-Answer :
      (msg : Message) (payload : Bytes) (p cport : ℕ) (h : k.Heap) (w : World k)
      → ControlAnswer msg.header.type payload
      → k.k_heap_alloc w.heap (8 + length payload) ≡ some (p, h)
      → node_to_ap_cport w.node_ap_map 2 0 ≡ pos cport
      → cport < 65536
      → intf_write msg 0 w
        ≡ done (pos 0) (record w {
          uart = answered w cport msg.header (padding k h p) payload;
          heap = k.k_heap_free (k.k_heap_free h p) msg.ptr;
        })
  unfolding intf_write gb_message_dealloc
  intf_write-Answer msg payload p cport h w a e c small = ground (
    arith,
    control_protocol_handle-Answer msg payload w a,
    response_helper_lem msg payload p cport h w (ControlAnswer-fits a) e c small,
  )
