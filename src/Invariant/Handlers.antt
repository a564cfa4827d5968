-- ===== src/Invariant/Handlers.antt =====
-- src/svc.c and src/local_node.c: the handlers of requests.
use cc1352_firmware.Prelude.{ℕ, Bytes, length}
use cc1352_firmware.System.Kernel.{Kernel}
use cc1352_firmware.System.Keeps.{
  Keeps, Keeps-bind, Keeps-then, Keeps-option, Keeps-return, keeps_rules,
}
use cc1352_firmware.Greybus.Message.{Message}
use cc1352_firmware.Svc.Handlers.{
  byte_at, read_conn_request, svc_empty_request_handler, svc_pwrm_get_rail_count_handler,
  svc_intf_set_pwrm_handler, svc_intf_vsys_enable_disable_handler,
  svc_interface_refclk_enable_disable_handler, svc_interface_unipro_enable_disable_handler,
  svc_interface_activate_handler, svc_dme_peer_get_handler, svc_dme_peer_set_handler,
  svc_interface_resume_handler, svc_connection_create_handler, svc_connection_destroy_handler,
  svc_version_response_handler, gb_handle_msg, svc_inf_write,
}
use cc1352_firmware.LocalNode.{
  response_helper, control_protocol_cport_shutdown_handler, control_protocol_version_handler,
  control_protocol_get_manifest_size_handler, control_protocol_get_manifest_handler,
  control_protocol_empty_handler, control_protocol_handle, intf_write,
}
use cc1352_firmware.Invariant.{IsSound}
use cc1352_firmware.Invariant.Messages.{
  gb_message_dealloc-Keeps, gb_message_response_alloc-Keeps, send_to_ap-Keeps,
}
use cc1352_firmware.Invariant.Requests.{svc_response_helper-Keeps, svc_send_hello-Keeps}
use cc1352_firmware.Invariant.Connections.{connection_create-Keeps, connection_destroy-Keeps}

module _ {k : Kernel} where
  byte_at-Keeps : (msg : Message) (i : ℕ) → Keeps (IsSound {k = k}) (byte_at msg i)
  unfolding byte_at
  byte_at-Keeps msg i = search keeps_rules

  read_conn_request-Keeps : (msg : Message) → Keeps (IsSound {k = k}) (read_conn_request msg)
  unfolding read_conn_request
  read_conn_request-Keeps msg = search (keeps_rules, byte_at-Keeps) depth 10

  ruleset handler_rules = (
    keeps_rules, byte_at-Keeps, read_conn_request-Keeps, svc_response_helper-Keeps,
    svc_send_hello-Keeps, connection_create-Keeps, connection_destroy-Keeps,
    gb_message_dealloc-Keeps,
  )

  svc_connection_create_handler-Keeps :
      (msg : Message) → Keeps (IsSound {k = k}) (svc_connection_create_handler msg)
  unfolding svc_connection_create_handler
  svc_connection_create_handler-Keeps msg = search handler_rules depth 8

  svc_connection_destroy_handler-Keeps :
      (msg : Message) → Keeps (IsSound {k = k}) (svc_connection_destroy_handler msg)
  unfolding svc_connection_destroy_handler
  svc_connection_destroy_handler-Keeps msg = search handler_rules depth 8

  gb_handle_msg-Keeps : (msg : Message) → Keeps (IsSound {k = k}) (gb_handle_msg msg)
  unfolding gb_handle_msg svc_empty_request_handler svc_pwrm_get_rail_count_handler
      svc_intf_set_pwrm_handler svc_intf_vsys_enable_disable_handler
      svc_interface_refclk_enable_disable_handler svc_interface_unipro_enable_disable_handler
      svc_interface_activate_handler svc_dme_peer_get_handler svc_dme_peer_set_handler
      svc_interface_resume_handler svc_version_response_handler
  gb_handle_msg-Keeps msg =
      search
        (handler_rules, svc_connection_create_handler-Keeps, svc_connection_destroy_handler-Keeps)
        depth 20

  pub svc_inf_write-Keeps :
      (msg : Message) (cport_id : ℕ) → Keeps (IsSound {k = k}) (svc_inf_write msg cport_id)
  unfolding svc_inf_write
  svc_inf_write-Keeps msg cport_id = search (handler_rules, gb_handle_msg-Keeps) depth 8

  response_helper-Keeps :
      (msg : Message) (payload : Bytes) (status cport_id : ℕ)
      → Keeps (IsSound {k = k}) (response_helper msg payload status cport_id)
  unfolding response_helper
  response_helper-Keeps msg payload status cport_id =
      Keeps-bind _ _ (gb_message_response_alloc-Keeps payload (length payload) _ _ status) λ resp.
        Keeps-option resp _ _ (Keeps-return _)
          (λ r e. Keeps-then _ _ (send_to_ap-Keeps 2 cport_id r) (Keeps-return _))

  control_protocol_handle-Keeps :
      (msg : Message) → Keeps (IsSound {k = k}) (control_protocol_handle msg)
  unfolding control_protocol_handle control_protocol_cport_shutdown_handler
      control_protocol_version_handler control_protocol_get_manifest_size_handler
      control_protocol_get_manifest_handler control_protocol_empty_handler
  control_protocol_handle-Keeps msg = search (keeps_rules, response_helper-Keeps) depth 10

  pub intf_write-Keeps :
      (msg : Message) (cport_id : ℕ) → Keeps (IsSound {k = k}) (intf_write msg cport_id)
  unfolding intf_write
  intf_write-Keeps msg cport_id =
      search (keeps_rules, control_protocol_handle-Keeps, gb_message_dealloc-Keeps) depth 8
