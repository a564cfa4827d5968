-- ===== src/Tests/LocalNode.antt =====
-- The board itself at work.
use cc1352_firmware.Prelude.{◌≡◌, refl, true, [], ◌∷◌, arith, replicate}
use cc1352_firmware.Prelude.Int.{pos}
use cc1352_firmware.System.World.{World, local_intf, svc_intf, done}
use cc1352_firmware.Bridge.Table.{empty_item, node_to_ap_cport, node_to_ap_cport_from}
use cc1352_firmware.Bridge.Routing.{item_of}
use cc1352_firmware.Greybus.Message.{MsgHdr, Message}
use cc1352_firmware.Svc.Answers.{answered}
use cc1352_firmware.LocalNode.{intf_write}
use cc1352_firmware.LocalNode.Answers.{ControlAnswer, intf_write-Answer}
use cc1352_firmware.Tests.Samples.{toy, booted}

-- cport 1 of the AP is connected with the control cport of the board
abbrev with_board : World toy
with_board = record booted {
  svc_is_read_flag = true;
  node_ap_map = item_of 0 0 svc_intf ∷ item_of 2 0 local_intf ∷ replicate 30 empty_item;
}

abbrev size_hdr : MsgHdr
size_hdr = record { size = 8; operation_id = 9; type = 0x03; result = 0; pad = (0, 0) }

abbrev size_request : Message
size_request = record { ptr = 50; block = 8; header = size_hdr; payload = [] }

to_cport_1 : node_to_ap_cport with_board.node_ap_map 2 0 ≡ pos 1
unfolding node_to_ap_cport node_to_ap_cport_from
to_cport_1 = refl

intf_write-Answer_example :
    intf_write size_request 0 with_board
    ≡ done (pos 0) (record with_board {
      uart = answered with_board 1 size_hdr (0xa5, 0xa5) (60 ∷ 0 ∷ []);
      heap = 1;
    })
intf_write-Answer_example =
    intf_write-Answer size_request (60 ∷ 0 ∷ []) 0 1 1 with_board
      (ControlAnswer.get_manifest_size refl refl) refl to_cport_1 (omega arith)
