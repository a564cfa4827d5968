-- ===== src/Invariant/Messages.antt =====
-- src/greybus_messages.c, src/ap.c, src/apbridge.c: messages and their way to the AP.
use cc1352_firmware.Prelude.{ℕ, Bool, arith, Bytes, Option}
use cc1352_firmware.System.Kernel.{Kernel}
use cc1352_firmware.System.Keeps.{
  After-option, After-if, Keeps-if, Keeps-int, Keeps-gets, Keeps-bind, Keeps-return, Keeps,
  Keeps-modify, keeps_rules,
}
use cc1352_firmware.Greybus.Message.{
  Message, new_operation_id, gb_message_alloc, gb_message_dealloc, memcpy_payload,
  gb_message_request_alloc, gb_message_response_alloc,
}
use cc1352_firmware.Bridge.Send.{
  gb_message_hdlc_send, ap_send, connection_send, send_to_ap, WriteCallback,
}
use cc1352_firmware.Invariant.{IsSound}
use cc1352_firmware.Prelude.{◌%◌, ltb, add_size, ◌==◌}
use cc1352_firmware.Greybus.Interface.{ap_inf_id}
use cc1352_firmware.Greybus.Message.{sizeof_hdr}
use cc1352_firmware.Bridge.Table.{node_to_ap_cport}
use cc1352_firmware.Invariant.Line.{send_block-Keeps}

module _ {k : Kernel} where
  pub new_operation_id-Keeps : Keeps (IsSound {k = k}) new_operation_id
  unfolding new_operation_id
  new_operation_id-Keeps = record {
    kept = λ w s. record {
      table = s.table;
      operation_ids = ground (arith, s.operation_ids);
      interface_ids = s.interface_ids;
      interfaces = s.interfaces;
      cache = s.cache;
      cached = s.cached;
      driver = s.driver;
      line = s.line;
    };
  }

  pub gb_message_alloc-Keeps :
      (payload_len message_type operation_id status : ℕ)
      → Keeps (IsSound {k = k}) (gb_message_alloc payload_len message_type operation_id status)
  unfolding gb_message_alloc
  gb_message_alloc-Keeps payload_len message_type operation_id status = record {
    kept = λ w s.
        After-option IsSound (k.k_heap_alloc w.heap (add_size sizeof_hdr payload_len)) _ _ s
          λ x. After-if IsSound (ltb (add_size sizeof_hdr payload_len) sizeof_hdr) _ _ tt s;
  }

  pub gb_message_dealloc-Keeps : (msg : Message) → Keeps (IsSound {k = k}) (gb_message_dealloc msg)
  unfolding gb_message_dealloc
  gb_message_dealloc-Keeps msg = Keeps-modify _ (λ w s. s)

  pub memcpy_payload-Keeps :
      (msg : Option Message) (src : Bytes) (len : ℕ)
      → Keeps (IsSound {k = k}) (memcpy_payload msg src len)
  unfolding memcpy_payload
  memcpy_payload-Keeps Option.none src len = search keeps_rules
  memcpy_payload-Keeps (Option.some m) src len = search keeps_rules

  pub gb_message_request_alloc-Keeps :
      (payload : Bytes) (payload_len request_type : ℕ) (is_oneshot : Bool)
      → Keeps
          (IsSound {k = k})
          (gb_message_request_alloc payload payload_len request_type is_oneshot)
  unfolding gb_message_request_alloc
  gb_message_request_alloc-Keeps payload payload_len request_type is_oneshot =
      search (keeps_rules, new_operation_id-Keeps, gb_message_alloc-Keeps, memcpy_payload-Keeps)

  pub gb_message_response_alloc-Keeps :
      (payload : Bytes) (payload_len request_type operation_id status : ℕ)
      → Keeps
          (IsSound {k = k})
          (gb_message_response_alloc payload payload_len request_type operation_id status)
  unfolding gb_message_response_alloc
  gb_message_response_alloc-Keeps payload payload_len request_type operation_id status =
      search (keeps_rules, gb_message_alloc-Keeps, memcpy_payload-Keeps)

  pub ap_send-Keeps : (msg : Message) (cport : ℕ) → Keeps (IsSound {k = k}) (ap_send msg cport)
  unfolding ap_send gb_message_hdlc_send
  ap_send-Keeps msg cport = search (keeps_rules, send_block-Keeps, gb_message_dealloc-Keeps) depth 8

  pub connection_send-Keeps :
      (write : WriteCallback k) (intf_id intf_cport : ℕ) (msg : Message)
      → ((intf : _) (cport : ℕ) → Keeps IsSound (write intf msg cport))
      → Keeps (IsSound {k = k}) (connection_send write intf_id intf_cport msg)
  unfolding connection_send
  connection_send-Keeps write intf_id intf_cport msg h =
      Keeps-if (intf_id == ap_inf_id) _ _ (search (keeps_rules, h)) (
        Keeps-bind _ _ (Keeps-gets _) λ map.
          Keeps-int (node_to_ap_cport map intf_id intf_cport) _ _ (λ e. Keeps-return _)
            (λ ap_cport. ap_send-Keeps msg (ap_cport % 65536)))

  pub send_to_ap-Keeps :
      (intf_id cport : ℕ) (msg : Message) → Keeps (IsSound {k = k}) (send_to_ap intf_id cport msg)
  unfolding send_to_ap
  send_to_ap-Keeps intf_id cport msg = search (connection_send-Keeps, keeps_rules)
