-- ===== src/Svc/Handlers.antt =====
-- src/svc.c: the handlers of the requests and responses that the AP sends to the SVC.
use cc1352_firmware.Prelude.{
  ℕ, ◌+◌, ◌*◌, ◌&&◌, ◌||◌, [], ◌∷◌, bit_or, ◌==◌, if◌then◌else◌, get_elem?,
}
use cc1352_firmware.Prelude.Int.{ℤ, pos, is_negative, minus_one}
use cc1352_firmware.System.Kernel.{Kernel}
use cc1352_firmware.System.World.{M, ◌>>=◌, ◌>>◌, return, in_array}
use cc1352_firmware.Greybus.Message.{Message, gb_op_response, gb_message_type, gb_message_dealloc}
use cc1352_firmware.Bridge.Connect.{connection_create, connection_destroy}
use cc1352_firmware.Svc.Requests.{svc_response_helper, svc_send_hello}

abbrev pub gb_svc_op_success : ℕ
gb_svc_op_success = 0x00

abbrev pub gb_svc_op_unknown_error : ℕ
gb_svc_op_unknown_error = 0x01

-- GB_RESPONSE of greybus_protocols.h
abbrev pub gb_response : ℕ → ℕ
gb_response req = bit_or req gb_op_response

-- the fields that `gb_svc_conn_create_request` and `gb_svc_conn_destroy_request` share
pub record ConnRequest : Type 0 where
  pub intf1_id : ℕ
  pub cport1_id : ℕ
  pub intf2_id : ℕ
  pub cport2_id : ℕ

module _ {k : Kernel} where
  -- a byte of the payload; the payload's length is never tested
  unfoldable pub byte_at : Message → ℕ → M k ℕ
  byte_at msg i = in_array (get_elem? msg.payload i)

  unfoldable pub read_conn_request : Message → M k ConnRequest
  read_conn_request msg = do
    intf1 ← byte_at msg 0
    lo1 ← byte_at msg 1
    hi1 ← byte_at msg 2
    intf2 ← byte_at msg 3
    lo2 ← byte_at msg 4
    hi2 ← byte_at msg 5
    return (record {
      intf1_id = intf1;
      cport1_id = lo1 + 256 * hi1;
      intf2_id = intf2;
      cport2_id = lo2 + 256 * hi2;
    })

  unfoldable pub svc_empty_request_handler : Message → M k (Unit {0})
  svc_empty_request_handler msg = svc_response_helper msg [] gb_svc_op_success

  unfoldable pub svc_pwrm_get_rail_count_handler : Message → M k (Unit {0})
  svc_pwrm_get_rail_count_handler msg = svc_response_helper msg (0 ∷ []) gb_svc_op_success

  -- GB_SVC_SETPWRM_PWR_OK if both modes are GB_SVC_UNIPRO_HIBERNATE_MODE, else
  -- GB_SVC_SETPWRM_PWR_LOCAL
  unfoldable pub svc_intf_set_pwrm_handler : Message → M k (Unit {0})
  svc_intf_set_pwrm_handler msg = do
    tx_mode ← byte_at msg 2
    rx_mode ← byte_at msg 7
    svc_response_helper msg ((if tx_mode == 0x11 && rx_mode == 0x11 then 0x00 else 0x01) ∷ [])
        gb_svc_op_success

  unfoldable pub svc_intf_vsys_enable_disable_handler : Message → M k (Unit {0})
  svc_intf_vsys_enable_disable_handler msg = svc_response_helper msg (0x00 ∷ []) gb_svc_op_success

  unfoldable pub svc_interface_refclk_enable_disable_handler : Message → M k (Unit {0})
  svc_interface_refclk_enable_disable_handler msg =
      svc_response_helper msg (0x00 ∷ []) gb_svc_op_success

  unfoldable pub svc_interface_unipro_enable_disable_handler : Message → M k (Unit {0})
  svc_interface_unipro_enable_disable_handler msg =
      svc_response_helper msg (0x00 ∷ []) gb_svc_op_success

  -- status and GB_SVC_INTF_TYPE_GREYBUS
  unfoldable pub svc_interface_activate_handler : Message → M k (Unit {0})
  svc_interface_activate_handler msg =
      svc_response_helper msg (gb_svc_op_success ∷ 0x03 ∷ []) gb_svc_op_success

  -- result code 0 and attribute value 0x0126
  unfoldable pub svc_dme_peer_get_handler : Message → M k (Unit {0})
  svc_dme_peer_get_handler msg =
      svc_response_helper msg (0 ∷ 0 ∷ 0x26 ∷ 0x01 ∷ 0 ∷ 0 ∷ []) gb_svc_op_success

  unfoldable pub svc_dme_peer_set_handler : Message → M k (Unit {0})
  svc_dme_peer_set_handler msg = svc_response_helper msg (0 ∷ 0 ∷ []) gb_svc_op_success

  unfoldable pub svc_interface_resume_handler : Message → M k (Unit {0})
  svc_interface_resume_handler msg =
      svc_response_helper msg (gb_svc_op_success ∷ []) gb_svc_op_success

  unfoldable pub svc_connection_create_handler : Message → M k (Unit {0})
  svc_connection_create_handler msg = do
    req ← read_conn_request msg
    (if ConnRequest.intf1_id req == ConnRequest.intf2_id req
          && ConnRequest.cport1_id req == ConnRequest.cport2_id req
        then svc_response_helper msg [] gb_svc_op_unknown_error
        else (do
          ret ←
              connection_create (ConnRequest.intf1_id req) (ConnRequest.cport1_id req)
                (ConnRequest.intf2_id req) (ConnRequest.cport2_id req)
          svc_response_helper msg []
              (if is_negative ret then gb_svc_op_unknown_error else gb_svc_op_success)))

  unfoldable pub svc_connection_destroy_handler : Message → M k (Unit {0})
  svc_connection_destroy_handler msg = do
    req ← read_conn_request msg
    ret ←
        connection_destroy (ConnRequest.intf1_id req) (ConnRequest.cport1_id req)
          (ConnRequest.intf2_id req) (ConnRequest.cport2_id req)
    svc_response_helper msg []
        (if is_negative ret then gb_svc_op_unknown_error else gb_svc_op_success)

  -- `svc_version_response_handler` logs the two version bytes of the payload and says hello.
  unfoldable pub svc_version_response_handler : Message → M k (Unit {0})
  svc_version_response_handler msg = do byte_at msg 0; byte_at msg 1; svc_send_hello; return tt

  -- `gb_handle_msg`. The responses to hello, module inserted and module removed only log, as
  -- does a type that is not known.
  unfoldable pub gb_handle_msg : Message → M k (Unit {0})
  gb_handle_msg msg =
      let t = gb_message_type msg in
      if t == 0x03 || t == 0x0b || t == 0x0c || t == 0x13
      then svc_empty_request_handler msg
      else if t == 0x07
      then svc_connection_create_handler msg
      else if t == 0x08
      then svc_connection_destroy_handler msg
      else if t == 0x09
      then svc_dme_peer_get_handler msg
      else if t == 0x0a
      then svc_dme_peer_set_handler msg
      else if t == 0x10
      then svc_intf_set_pwrm_handler msg
      else if t == 0x14
      then svc_pwrm_get_rail_count_handler msg
      else if t == 0x21 || t == 0x22
      then svc_intf_vsys_enable_disable_handler msg
      else if t == 0x23 || t == 0x24
      then svc_interface_refclk_enable_disable_handler msg
      else if t == 0x25 || t == 0x26
      then svc_interface_unipro_enable_disable_handler msg
      else if t == 0x27
      then svc_interface_activate_handler msg
      else if t == 0x28
      then svc_interface_resume_handler msg
      else if t == gb_response 0x01
      then svc_version_response_handler msg
      else return tt

  unfoldable pub svc_inf_write : Message → ℕ → M k ℤ
  svc_inf_write msg cport_id =
      if cport_id == 0
      then (do gb_handle_msg msg; gb_message_dealloc msg; return (pos 0))
      else return minus_one
