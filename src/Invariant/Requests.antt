-- ===== src/Invariant/Requests.antt =====
-- src/svc.c: the requests and responses of the SVC, and the end of a node that it announces.
use cc1352_firmware.Prelude.{ℕ, Bytes, false, length}
use cc1352_firmware.System.Kernel.{Kernel}
use cc1352_firmware.System.World.{IntfPtr}
use cc1352_firmware.System.Keeps.{
  Keeps, Keeps-bind, Keeps-then, Keeps-option, Keeps-return, Keeps-modify, keeps_rules,
}
use cc1352_firmware.Greybus.Message.{Message}
use cc1352_firmware.Node.Destroy.{node_destroy_interface}
use cc1352_firmware.Svc.State.{
  svc_is_ready, svc_init, svc_deinit, svc_interface, svc_inf_create_connection,
  svc_inf_destroy_connection,
}
use cc1352_firmware.Svc.Requests.{
  control_send_request, svc_send_hello, svc_send_version, svc_send_module_inserted, interface_id,
  svc_send_module_removed, svc_response_helper,
}
use cc1352_firmware.Invariant.{IsSound}
use cc1352_firmware.Invariant.Messages.{
  gb_message_request_alloc-Keeps, gb_message_response_alloc-Keeps, send_to_ap-Keeps,
}
use cc1352_firmware.Invariant.Nodes.{destroy_node-Keeps}

module _ {k : Kernel} where
  pub svc_init-Keeps : Keeps (IsSound {k = k}) svc_init
  unfolding svc_init
  svc_init-Keeps = Keeps-modify _ (λ w s. s)

  pub svc_deinit-Keeps : Keeps (IsSound {k = k}) svc_deinit
  unfolding svc_deinit
  svc_deinit-Keeps = Keeps-modify _ (λ w s. s)

  pub svc_interface-Keeps : Keeps (IsSound {k = k}) svc_interface
  unfolding svc_interface svc_is_ready
  svc_interface-Keeps = search keeps_rules

  pub svc_inf_create_connection-Keeps :
      (cport_id : ℕ) → Keeps (IsSound {k = k}) (svc_inf_create_connection cport_id)
  unfolding svc_inf_create_connection svc_is_ready
  svc_inf_create_connection-Keeps cport_id = search keeps_rules

  pub svc_inf_destroy_connection-Keeps :
      (cport_id : ℕ) → Keeps (IsSound {k = k}) (svc_inf_destroy_connection cport_id)
  unfolding svc_inf_destroy_connection
  svc_inf_destroy_connection-Keeps cport_id = search (keeps_rules, svc_deinit-Keeps)

  pub control_send_request-Keeps :
      (payload : Bytes) (request_type : ℕ)
      → Keeps (IsSound {k = k}) (control_send_request payload request_type)
  unfolding control_send_request
  control_send_request-Keeps payload request_type =
      Keeps-bind _ _ (gb_message_request_alloc-Keeps payload (length payload) request_type false)
        λ msg.
          Keeps-option msg _ _ (Keeps-return _)
            (λ m e. search (keeps_rules, send_to_ap-Keeps) depth 8)

  pub svc_send_hello-Keeps : Keeps (IsSound {k = k}) svc_send_hello
  unfolding svc_send_hello
  svc_send_hello-Keeps = control_send_request-Keeps _ _

  pub svc_send_version-Keeps : Keeps (IsSound {k = k}) svc_send_version
  unfolding svc_send_version
  svc_send_version-Keeps = control_send_request-Keeps _ _

  pub svc_send_module_inserted-Keeps :
      (id : ℕ) → Keeps (IsSound {k = k}) (svc_send_module_inserted id)
  unfolding svc_send_module_inserted
  svc_send_module_inserted-Keeps id = control_send_request-Keeps _ _

  pub interface_id-Keeps : (intf : IntfPtr) → Keeps (IsSound {k = k}) (interface_id intf)
  unfolding interface_id
  interface_id-Keeps IntfPtr.svc_intf = Keeps-return _
  interface_id-Keeps IntfPtr.local_intf = Keeps-return _
  interface_id-Keeps (IntfPtr.node_intf p) = search keeps_rules

  node_destroy_interface-Keeps :
      (intf : IntfPtr) → Keeps (IsSound {k = k}) (node_destroy_interface intf)
  unfolding node_destroy_interface
  node_destroy_interface-Keeps (IntfPtr.node_intf p) = destroy_node-Keeps p
  node_destroy_interface-Keeps _ = search keeps_rules

  pub svc_send_module_removed-Keeps :
      (intf : IntfPtr) → Keeps (IsSound {k = k}) (svc_send_module_removed intf)
  unfolding svc_send_module_removed
  svc_send_module_removed-Keeps intf =
      search
        (keeps_rules, interface_id-Keeps, control_send_request-Keeps, node_destroy_interface-Keeps)
        depth 8

  pub svc_response_helper-Keeps :
      (msg : Message) (payload : Bytes) (status : ℕ)
      → Keeps (IsSound {k = k}) (svc_response_helper msg payload status)
  unfolding svc_response_helper
  svc_response_helper-Keeps msg payload status =
      Keeps-bind _ _ (gb_message_response_alloc-Keeps payload (length payload) _ _ status) λ resp.
        Keeps-option resp _ _ (Keeps-return _)
          (λ r e. Keeps-then _ _ (send_to_ap-Keeps 0 0 r) (Keeps-return _))
