-- ===== src/LocalNode.antt =====
-- src/local_node.c: the interface of the board itself, with the control protocol on cport 0.
pub mod Answers
use cc1352_firmware.Prelude.{
  ℕ, ◌||◌, [], ◌∷◌, none, some, ◌==◌, if◌then◌else◌, length, lo, hi, Bytes,
}
use cc1352_firmware.Prelude.Int.{ℤ, pos}
use cc1352_firmware.System.Kernel.{Kernel}
use cc1352_firmware.System.World.{M, ◌>>=◌, ◌>>◌, return}
use cc1352_firmware.Greybus.Message.{
  Message, gb_message_type, gb_message_response_alloc, gb_message_dealloc,
}
use cc1352_firmware.Greybus.Interface.{local_node_id}
use cc1352_firmware.Bridge.Send.{send_to_ap}

abbrev pub control_protocol_cport : ℕ
control_protocol_cport = 0

-- the manifest blob
unfoldable pub manifest : Bytes
manifest =
    0x3c ∷ 0x00 ∷ 0x00 ∷ 0x01 ∷ 0x08 ∷ 0x00 ∷ 0x01 ∷ 0x00 ∷ 0x01 ∷ 0x02 ∷ 0x00 ∷ 0x00 ∷ 0x18 ∷ 0x00
    ∷ 0x02 ∷ 0x00 ∷ 0x11 ∷ 0x01 ∷ 0x42 ∷ 0x65 ∷ 0x61 ∷ 0x67 ∷ 0x6c ∷ 0x65 ∷ 0x50 ∷ 0x6c ∷ 0x61
    ∷ 0x79 ∷ 0x20 ∷ 0x43 ∷ 0x43 ∷ 0x31 ∷ 0x33 ∷ 0x35 ∷ 0x32 ∷ 0x00 ∷ 0x18 ∷ 0x00 ∷ 0x02 ∷ 0x00
    ∷ 0x11 ∷ 0x02 ∷ 0x42 ∷ 0x65 ∷ 0x61 ∷ 0x67 ∷ 0x6c ∷ 0x65 ∷ 0x50 ∷ 0x6c ∷ 0x61 ∷ 0x79 ∷ 0x20
    ∷ 0x43 ∷ 0x43 ∷ 0x31 ∷ 0x33 ∷ 0x35 ∷ 0x32 ∷ 0x00 ∷ []

module _ {k : Kernel} where
  -- `response_helper`; every caller sends on the control cport.
  unfoldable pub response_helper : Message → Bytes → ℕ → ℕ → M k (Unit {0})
  response_helper msg payload status cport_id = do
    resp ←
        gb_message_response_alloc payload (length payload) (gb_message_type msg)
          msg.header.operation_id status
    elim resp [ none ↦ return tt | some r ↦ (do send_to_ap local_node_id cport_id r; return tt) ]

  unfoldable pub control_protocol_cport_shutdown_handler : Message → M k (Unit {0})
  control_protocol_cport_shutdown_handler msg = response_helper msg [] 0 control_protocol_cport

  unfoldable pub control_protocol_version_handler : Message → M k (Unit {0})
  control_protocol_version_handler msg = response_helper msg (0 ∷ 1 ∷ []) 0 control_protocol_cport

  unfoldable pub control_protocol_get_manifest_size_handler : Message → M k (Unit {0})
  control_protocol_get_manifest_size_handler msg =
      response_helper msg (lo (length manifest) ∷ hi (length manifest) ∷ []) 0
        control_protocol_cport

  unfoldable pub control_protocol_get_manifest_handler : Message → M k (Unit {0})
  control_protocol_get_manifest_handler msg = response_helper msg manifest 0 control_protocol_cport

  unfoldable pub control_protocol_empty_handler : Message → M k (Unit {0})
  control_protocol_empty_handler msg = response_helper msg [] 0 control_protocol_cport

  unfoldable pub control_protocol_handle : Message → M k (Unit {0})
  control_protocol_handle msg =
      let t = gb_message_type msg in
      if t == 0x00
      then control_protocol_cport_shutdown_handler msg
      else if t == 0x01
      then control_protocol_version_handler msg
      else if t == 0x03
      then control_protocol_get_manifest_size_handler msg
      else if t == 0x04
      then control_protocol_get_manifest_handler msg
      else if t == 0x05
          || t == 0x0c
          || t == 0x06
          || t == 0x07
          || t == 0x08
          || t == 0x09
          || t == 0x15
      then control_protocol_empty_handler msg
      else return tt

  unfoldable pub intf_write : Message → ℕ → M k ℤ
  intf_write msg cport_id = do
    (if cport_id == control_protocol_cport then control_protocol_handle msg else return tt)
    gb_message_dealloc msg
    return (pos 0)
