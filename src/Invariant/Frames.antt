-- ===== src/Invariant/Frames.antt =====
-- src/main.c, src/tcp_discovery.c and src/hdlc_log_backend.c: frames of the AP, found nodes, logs.
use cc1352_firmware.Prelude.{ℕ, ◌∷◌, [], List, Option, none, some, length-replicate, Bytes}
use cc1352_firmware.System.Kernel.{Kernel}
use cc1352_firmware.System.World.{IntfPtr, modify}
use cc1352_firmware.System.Keeps.{
  Keeps, Keeps-modify, Keeps-bind, Keeps-then, Keeps-gets, Keeps-option, Keeps-return, keeps_rules,
}
use cc1352_firmware.Greybus.Message.{Message}
use cc1352_firmware.Bridge.Table.{ap_max_nodes, empty_item, apbridge_deinit}
use cc1352_firmware.Node.Cache.{node_cache_find_by_addr}
use cc1352_firmware.Node.Connect.{node_create_interface}
use cc1352_firmware.Node.Filter.{node_filter}
use cc1352_firmware.LogBackend.{hdlc_uart_out}
use cc1352_firmware.Firmware.{
  write_callback, ap_rx_submit, frame_byte, frame_word, submit_filled, submit_frame,
  hdlc_process_greybus_frame, tcp_discovery_start, tcp_discovery_stop, start_svc, stop_svc,
  control_process_frame, hdlc_process_complete_frame,
}
use cc1352_firmware.Invariant.{IsSound}
use cc1352_firmware.Invariant.Line.{send_block-Keeps}
use cc1352_firmware.Invariant.Messages.{
  connection_send-Keeps, gb_message_alloc-Keeps, memcpy_payload-Keeps,
}
use cc1352_firmware.Invariant.Nodes.{node_destroy_all-Keeps}
use cc1352_firmware.Invariant.Joining.{node_create_interface-Keeps}
use cc1352_firmware.Invariant.Requests.{
  svc_init-Keeps, svc_deinit-Keeps, svc_send_version-Keeps, svc_send_module_inserted-Keeps,
  interface_id-Keeps,
}
use cc1352_firmware.Invariant.Connections.{table-Keeps, connection_create-Keeps}
use cc1352_firmware.Invariant.Handlers.{svc_inf_write-Keeps, intf_write-Keeps}
use cc1352_firmware.Invariant.Transfers.{node_inf_write-Keeps}

module _ {k : Kernel} where
  write_callback-Keeps :
      (fuel : ℕ) (intf : IntfPtr) (msg : Message) (cport : ℕ)
      → Keeps (IsSound {k = k}) (write_callback fuel intf msg cport)
  unfolding write_callback
  write_callback-Keeps fuel IntfPtr.svc_intf msg cport = svc_inf_write-Keeps msg cport
  write_callback-Keeps fuel IntfPtr.local_intf msg cport = intf_write-Keeps msg cport
  write_callback-Keeps fuel (IntfPtr.node_intf p) msg cport = node_inf_write-Keeps fuel p msg cport

  ap_rx_submit-Keeps :
      (fuel : ℕ) (msg : Message) (cport_id : ℕ)
      → Keeps (IsSound {k = k}) (ap_rx_submit fuel msg cport_id)
  unfolding ap_rx_submit
  ap_rx_submit-Keeps fuel msg cport_id =
      connection_send-Keeps (write_callback fuel) 1 cport_id msg
        (λ intf cport. write_callback-Keeps fuel intf msg cport)

  frame_byte-Keeps : (buffer : Bytes) (i : ℕ) → Keeps (IsSound {k = k}) (frame_byte buffer i)
  unfolding frame_byte
  frame_byte-Keeps buffer i = search keeps_rules

  frame_word-Keeps : (buffer : Bytes) (i : ℕ) → Keeps (IsSound {k = k}) (frame_word buffer i)
  unfolding frame_word
  frame_word-Keeps buffer i = search (keeps_rules, frame_byte-Keeps)

  submit_filled-Keeps :
      (fuel cport : ℕ) (filled : Option Message)
      → Keeps (IsSound {k = k}) (submit_filled fuel cport filled)
  unfolding submit_filled
  submit_filled-Keeps fuel cport none = Keeps-return _
  submit_filled-Keeps fuel cport (some m) = search (keeps_rules, ap_rx_submit-Keeps)

  submit_frame-Keeps :
      (fuel : ℕ) (buffer : Bytes) (allocated : Option Message)
      → Keeps (IsSound {k = k}) (submit_frame fuel buffer allocated)
  unfolding submit_frame
  submit_frame-Keeps fuel buffer none = Keeps-return _
  submit_frame-Keeps fuel buffer (some m) =
      search (keeps_rules, memcpy_payload-Keeps, frame_word-Keeps, submit_filled-Keeps) depth 8

  hdlc_process_greybus_frame-Keeps :
      (fuel : ℕ) (buffer : Bytes) → Keeps (IsSound {k = k}) (hdlc_process_greybus_frame fuel buffer)
  unfolding hdlc_process_greybus_frame
  hdlc_process_greybus_frame-Keeps fuel buffer =
      search
        (
          keeps_rules, frame_byte-Keeps, frame_word-Keeps, gb_message_alloc-Keeps,
          submit_frame-Keeps,
        )
        depth 16

  tcp_discovery_start-Keeps : Keeps (IsSound {k = k}) tcp_discovery_start
  unfolding tcp_discovery_start
  tcp_discovery_start-Keeps = Keeps-modify _ (λ w s. s)

  pub tcp_discovery_stop-Keeps : Keeps (IsSound {k = k}) tcp_discovery_stop
  unfolding tcp_discovery_stop
  tcp_discovery_stop-Keeps = Keeps-modify _ (λ w s. s)

  start_svc-Keeps : Keeps (IsSound {k = k}) start_svc
  unfolding start_svc
  start_svc-Keeps =
      search
        (
          keeps_rules, svc_init-Keeps, connection_create-Keeps, svc_send_version-Keeps,
          tcp_discovery_start-Keeps,
        )
        depth 10

  emptied-Keeps :
      Keeps
        (IsSound {k = k})
        (modify (λ w. record w { node_ap_map = apbridge_deinit w.node_ap_map }))
  unfolding apbridge_deinit
  emptied-Keeps = table-Keeps _ (length-replicate ap_max_nodes empty_item)

  stop_svc-Keeps : Keeps (IsSound {k = k}) stop_svc
  unfolding stop_svc
  stop_svc-Keeps =
      search
        (
          keeps_rules, tcp_discovery_stop-Keeps, node_destroy_all-Keeps, svc_deinit-Keeps,
          emptied-Keeps,
        )
        depth 10

  control_process_frame-Keeps :
      (buffer : Bytes) → Keeps (IsSound {k = k}) (control_process_frame buffer)
  unfolding control_process_frame
  control_process_frame-Keeps buffer = search (keeps_rules, start_svc-Keeps, stop_svc-Keeps)

  pub hdlc_process_complete_frame-Keeps :
      (fuel : ℕ) (buffer : Bytes) (address : ℕ)
      → Keeps (IsSound {k = k}) (hdlc_process_complete_frame fuel buffer address)
  unfolding hdlc_process_complete_frame
  hdlc_process_complete_frame-Keeps fuel buffer address =
      search (keeps_rules, hdlc_process_greybus_frame-Keeps, control_process_frame-Keeps)

  pub node_filter-Keeps : (addrs : List Bytes) → Keeps (IsSound {k = k}) (node_filter addrs)
  unfolding node_filter
  node_filter-Keeps [] = Keeps-return tt
  node_filter-Keeps (addr ∷ addrs) =
      let rest = node_filter-Keeps addrs in
      Keeps-bind _ _ (Keeps-gets _) λ cache.
        Keeps-option (node_cache_find_by_addr k.net_ipv6_addr_cmp cache addr) _ _
          (Keeps-bind (node_create_interface addr) _ (node_create_interface-Keeps addr) λ inf.
            Keeps-option inf _ _ rest λ p e.
              Keeps-bind _ _ (interface_id-Keeps (IntfPtr.node_intf p))
                (λ id. Keeps-then _ _ (svc_send_module_inserted-Keeps id) rest))
          (λ at e. rest)

  pub hdlc_uart_out-Keeps : (bytes : Bytes) → Keeps (IsSound {k = k}) (hdlc_uart_out bytes)
  unfolding hdlc_uart_out
  hdlc_uart_out-Keeps bytes = search (keeps_rules, send_block-Keeps)
