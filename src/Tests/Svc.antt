-- ===== src/Tests/Svc.antt =====
-- The SVC at work, and frames from the AP.
use cc1352_firmware.Prelude.{◌≡◌, refl, true, [], ◌∷◌, ◌++◌, arith, replicate, if◌then◌else◌}
use cc1352_firmware.Prelude.Int.{pos, is_negative}
use cc1352_firmware.Hdlc.{hdlc_block_send_sync}
use cc1352_firmware.System.World.{done, fault, null_pointer, out_of_bounds, ◌>>=◌, return}
use cc1352_firmware.Greybus.Message.{Message}
use cc1352_firmware.Bridge.Table.{empty_item}
use cc1352_firmware.Bridge.Send.{ap_send, connection_send}
use cc1352_firmware.Svc.Requests.{control_send_request}
use cc1352_firmware.Bridge.Wire.{wire, ap_send_overrun}
use cc1352_firmware.Svc.Responses.{control_send_request_no_memory}
use cc1352_firmware.Svc.Answers.{Answer, svc_inf_write-Answer}
use cc1352_firmware.Svc.Handlers.{svc_inf_write}
use cc1352_firmware.Firmware.{write_callback, hdlc_process_greybus_frame, start_svc}
use cc1352_firmware.Firmware.Frames.{
  hdlc_process_greybus_frame_short, hdlc_process_greybus_frame-wire,
}
use cc1352_firmware.Firmware.Lifecycle.{start_svc_lem}
use cc1352_firmware.Tests.Samples.{toy, booted, booted_full, connected, to_cport_0, ping, ping_hdr}

abbrev large : Message
large = record {
  ptr = 50;
  block = 400;
  header = record { size = 400; operation_id = 7; type = 0x13; result = 0; pad = (0, 0) };
  payload = replicate 392 0;
}

ap_send_overrun_example : ap_send large 4 booted ≡ fault out_of_bounds
ap_send_overrun_example = ap_send_overrun large 4 booted (omega arith) (omega arith)

control_send_request_no_memory_example :
    control_send_request (0 ∷ 1 ∷ []) 0x01 booted_full ≡ fault null_pointer
control_send_request_no_memory_example =
    control_send_request_no_memory 0 (1 ∷ []) 0x01 booted_full (omega arith) refl

svc_inf_write-Answer_example :
    svc_inf_write ping 0 connected
    ≡ done (pos 0) (record connected {
      uart =
          []
          ++ hdlc_block_send_sync toy.crc16_ccitt connected.hdlc_driver
              (wire 0
                (record { size = 8; operation_id = 7; type = 0x93; result = 0; pad = (0xa5, 0xa5) })
                [])
              1
              3;
      heap = 1;
    })
svc_inf_write-Answer_example =
    svc_inf_write-Answer ping [] 0 0 1 connected (Answer.ping refl refl) refl to_cport_0
      (omega arith)

hdlc_process_greybus_frame_short_example :
    hdlc_process_greybus_frame 9 (0 ∷ 0 ∷ 3 ∷ 0 ∷ 7 ∷ 0 ∷ 0x13 ∷ 0 ∷ 0 ∷ 0 ∷ []) connected
    ≡ fault out_of_bounds
hdlc_process_greybus_frame_short_example =
    hdlc_process_greybus_frame_short 9 0 0 3 0x13 0 7 0 0 [] 1 connected (omega arith) (omega arith)
      refl

hdlc_process_greybus_frame-wire_example :
    hdlc_process_greybus_frame 9 (wire 0 ping_hdr []) connected
    ≡ (do
      ret ← connection_send (write_callback 9) 1 0 (record {
        ptr = 0;
        block = 8;
        header = record ping_hdr { pad = (0xa5, 0xa5) };
        payload = [];
      })
      return (if is_negative ret then ret else pos 0))
        (record connected { heap = 1 })
hdlc_process_greybus_frame-wire_example =
    hdlc_process_greybus_frame-wire 9 0 0 ping_hdr [] 1 connected (omega arith) refl (omega arith)
      (omega arith) refl

start_svc_lem_example :
    start_svc booted
    ≡ done (pos 0) (record connected {
      operation_id_counter = 2;
      uart =
          []
          ++ hdlc_block_send_sync toy.crc16_ccitt booted.hdlc_driver
              (wire 0
                (record {
                  size = 10;
                  operation_id = 1;
                  type = 0x01;
                  result = 0;
                  pad = (0xa5, 0xa5);
                })
                (0 ∷ 1 ∷ []))
              1
              3;
      heap = 1;
      discovery = true;
    })
start_svc_lem_example =
    start_svc_lem booted empty_item (replicate 31 empty_item) 0 1 refl refl (omega arith) refl
