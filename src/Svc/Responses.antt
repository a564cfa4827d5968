-- ===== src/Svc/Responses.antt =====
-- src/svc.c, src/greybus_messages.c: the answers and the requests of the SVC on the line.
use cc1352_firmware.Prelude.{
  take_all, ℕ, suc, ◌+◌, ◌%◌, ◌^◌, ◌≤◌, ◌<◌, ◌≡◌, refl, ◌∷◌, ◌++◌, none, some, arith, length,
  bit_or, Bytes, false,
}
use cc1352_firmware.Prelude.Int.{pos}
use cc1352_firmware.Hdlc.{hdlc_block_send_sync}
use cc1352_firmware.System.Kernel.{Kernel}
use cc1352_firmware.System.World.{World, done, fault, null_pointer}
use cc1352_firmware.Greybus.Message.{
  new_operation_id, Message, gb_message_alloc, memcpy_payload, gb_message_response_alloc,
  gb_message_request_alloc, padding,
}
use cc1352_firmware.Bridge.Table.{node_to_ap_cport}
use cc1352_firmware.Bridge.Send.{connection_send, send_to_ap}
use cc1352_firmware.Svc.Requests.{svc_response_helper, control_send_request, stale_id_at}
use cc1352_firmware.Bridge.Wire.{wire, ap_send_lem}

module _ {k : Kernel} where
  -- What allocating a response gives where the heap has room.
  pub gb_message_response_alloc_lem :
      (payload : Bytes) (type operation_id status p : ℕ) (h : k.Heap) (w : World k)
      → length payload + 8 < 65536
      → k.k_heap_alloc w.heap (8 + length payload) ≡ some (p, h)
      → gb_message_response_alloc payload (length payload) type operation_id status w
        ≡ done
            (some (record {
              ptr = p;
              block = 8 + length payload;
              header = record {
                size = 8 + length payload;
                operation_id = operation_id;
                type = bit_or 0x80 type;
                result = status;
                pad = padding k h p;
              };
              payload = payload;
            }))
            (record w { heap = h })
  unfolding gb_message_response_alloc gb_message_alloc memcpy_payload
  gb_message_response_alloc_lem payload type operation_id status p h w l e =
      let small : (8 + length payload) % 2 ^ 32 ≡ 8 + length payload = omega arith in
      let word : (8 + length payload) % 65536 ≡ 8 + length payload = omega arith in
      ground (arith, small, word, e, take_all payload (length payload) refl)

  -- A response of the SVC is one frame with the request's id, its type with the response bit, and
  -- the status; the memory that it took is free again.
  pub svc_response_helper_lem :
      (msg : Message) (payload : Bytes) (status p cport : ℕ) (h : k.Heap) (w : World k)
      → length payload + 10 ≤ 256
      → k.k_heap_alloc w.heap (8 + length payload) ≡ some (p, h)
      → node_to_ap_cport w.node_ap_map 0 0 ≡ pos cport
      → cport < 65536
      → svc_response_helper msg payload status w
        ≡ done tt (record w {
          uart =
              w.uart
              ++ hdlc_block_send_sync k.crc16_ccitt w.hdlc_driver
                  (wire cport
                    (record {
                      size = 8 + length payload;
                      operation_id = msg.header.operation_id;
                      type = bit_or 0x80 msg.header.type;
                      result = status;
                      pad = padding k h p;
                    })
                    payload)
                  1
                  3;
          heap = k.k_heap_free h p;
        })
  unfolding svc_response_helper send_to_ap connection_send
  svc_response_helper_lem msg payload status p cport h w l e c small =
      let word : cport % 65536 ≡ cport = omega arith in
      let resp : Message = record {
        ptr = p;
        block = 8 + length payload;
        header = record {
          size = 8 + length payload;
          operation_id = msg.header.operation_id;
          type = bit_or 0x80 msg.header.type;
          result = status;
          pad = padding k h p;
        };
        payload = payload;
      } in
      ground (
        arith,
        gb_message_response_alloc_lem payload msg.header.type msg.header.operation_id status p h w
            (omega arith) e,
        ap_send_lem resp cport (record w { heap = h }) (record { size_is = omega arith; fits = l }),
        word,
      )

  gb_message_request_alloc_lem :
      (payload : Bytes) (type p : ℕ) (h : k.Heap) (w : World k)
      → length payload + 8 < 65536
      → w.operation_id_counter < 65535
      → k.k_heap_alloc w.heap (8 + length payload) ≡ some (p, h)
      → gb_message_request_alloc payload (length payload) type false w
        ≡ done
            (some (record {
              ptr = p;
              block = 8 + length payload;
              header = record {
                size = 8 + length payload;
                operation_id = w.operation_id_counter;
                type = type;
                result = 0;
                pad = padding k h p;
              };
              payload = payload;
            }))
            (record w { operation_id_counter = w.operation_id_counter + 1; heap = h })
  unfolding gb_message_request_alloc gb_message_alloc memcpy_payload new_operation_id
  gb_message_request_alloc_lem payload type p h w l o e =
      let small : (8 + length payload) % 2 ^ 32 ≡ 8 + length payload = omega arith in
      let word : (8 + length payload) % 65536 ≡ 8 + length payload = omega arith in
      let id : w.operation_id_counter % 65536 ≡ w.operation_id_counter = omega arith in
      ground (arith, small, word, id, e, take_all payload (length payload) refl)

  -- A request to the AP over the SVC's first cport.
  pub control_send_request_lem :
      (payload : Bytes) (type p cport : ℕ) (h : k.Heap) (w : World k)
      → length payload + 10 ≤ 256
      → w.operation_id_counter < 65535
      → k.k_heap_alloc w.heap (8 + length payload) ≡ some (p, h)
      → node_to_ap_cport w.node_ap_map 0 0 ≡ pos cport
      → cport < 65536
      → control_send_request payload type w
        ≡ done (pos (stale_id_at k (k.k_heap_free h p) p)) (record w {
          operation_id_counter = w.operation_id_counter + 1;
          uart =
              w.uart
              ++ hdlc_block_send_sync k.crc16_ccitt w.hdlc_driver
                  (wire cport
                    (record {
                      size = 8 + length payload;
                      operation_id = w.operation_id_counter;
                      type = type;
                      result = 0;
                      pad = padding k h p;
                    })
                    payload)
                  1
                  3;
          heap = k.k_heap_free h p;
        })
  unfolding control_send_request send_to_ap connection_send
  control_send_request_lem payload type p cport h w l o e c small =
      let word : cport % 65536 ≡ cport = omega arith in
      let req : Message = record {
        ptr = p;
        block = 8 + length payload;
        header = record {
          size = 8 + length payload;
          operation_id = w.operation_id_counter;
          type = type;
          result = 0;
          pad = padding k h p;
        };
        payload = payload;
      } in
      let counted = record w { operation_id_counter = w.operation_id_counter + 1; heap = h } in
      ground (
        arith,
        gb_message_request_alloc_lem payload type p h w (omega arith) o e,
        ap_send_lem req cport counted (record { size_is = omega arith; fits = l }),
        word,
      )

  -- A request of at least one and at most 247 bytes for which the heap has no room is written
  -- through the null pointer that the allocation returned.
  pub control_send_request_no_memory :
      (b : ℕ) (payload : Bytes) (type : ℕ) (w : World k)
      → length payload + 10 ≤ 256
      → k.k_heap_alloc w.heap (9 + length payload) ≡ none
      → control_send_request (b ∷ payload) type w ≡ fault null_pointer
  unfolding control_send_request gb_message_request_alloc gb_message_alloc memcpy_payload
      new_operation_id
  control_send_request_no_memory b payload type w l e =
      let small : (8 + suc (length payload)) % 2 ^ 32 ≡ 9 + length payload = omega arith in
      ground (arith, small, e)
