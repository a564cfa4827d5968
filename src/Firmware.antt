-- ===== src/Firmware.antt =====
-- src/main.c: the frames that arrive from the AP, and the start and stop of the SVC.
pub mod Frames
pub mod Lifecycle
use cc1352_firmware.Prelude.{
  ℕ, ◌+◌, ◌*◌, ◌%◌, Bool, true, false, ◌||◌, [], ◌∷◌, Option, none, some, ltb, ◌==◌, if◌then◌else◌,
  length, drop, get_elem?, get_or, Bytes, sub_size,
}
use cc1352_firmware.Prelude.Int.{ℤ, pos, is_negative, minus_one}
use cc1352_firmware.System.Kernel.{Kernel}
use cc1352_firmware.System.World.{World, IntfPtr, M, ◌>>=◌, ◌>>◌, return, gets, modify, in_array}
use cc1352_firmware.Greybus.Message.{
  MsgHdr, Message, sizeof_hdr, gb_hdr_payload_len, gb_message_payload_len, gb_message_alloc,
  memcpy_payload,
}
use cc1352_firmware.Greybus.Interface.{svc_inf_id, ap_inf_id}
use cc1352_firmware.Bridge.Send.{WriteCallback, address_greybus, connection_send}
use cc1352_firmware.Bridge.Connect.{connection_create}
use cc1352_firmware.Bridge.Table.{apbridge_deinit}
use cc1352_firmware.Svc.State.{svc_init, svc_deinit}
use cc1352_firmware.Svc.Requests.{svc_send_version}
use cc1352_firmware.Svc.Handlers.{svc_inf_write}
use cc1352_firmware.Node.Destroy.{node_destroy_all}
use cc1352_firmware.Node.Transfer.{node_inf_write}
use cc1352_firmware.LocalNode.{intf_write}

abbrev pub address_dbg : ℕ
address_dbg = 0x02

abbrev pub address_control : ℕ
address_control = 0x03

abbrev pub control_svc_start : ℕ
control_svc_start = 0x01

abbrev pub control_svc_stop : ℕ
control_svc_stop = 0x02

module _ {k : Kernel} where
  -- `intf->write(intf, msg, cport)`; the fuel is for the loops that write to a socket.
  unfoldable pub write_callback : ℕ → WriteCallback k
  write_callback fuel IntfPtr.svc_intf msg cport = svc_inf_write msg cport
  write_callback fuel IntfPtr.local_intf msg cport = intf_write msg cport
  write_callback fuel (IntfPtr.node_intf p) msg cport = node_inf_write fuel p msg cport

  -- `ap_rx_submit` of include/ap.h
  unfoldable pub ap_rx_submit : ℕ → Message → ℕ → M k ℤ
  ap_rx_submit fuel msg cport_id = connection_send (write_callback fuel) ap_inf_id cport_id msg

  -- a byte of the frame, which lies in the receive buffer of the HDLC driver: what stands behind
  -- the frame is not the frame's, and reading it is a fault here
  unfoldable pub frame_byte : Bytes → ℕ → M k ℕ
  frame_byte buffer i = in_array (get_elem? buffer i)

  unfoldable pub frame_word : Bytes → ℕ → M k ℕ
  frame_word buffer i = do
    low ← frame_byte buffer i
    high ← frame_byte buffer (i + 1)
    return (low + 256 * high)

  -- the end of `hdlc_process_greybus_frame`, with the message that was filled
  unfoldable pub submit_filled : ℕ → ℕ → Option Message → M k ℤ
  submit_filled fuel cport none = return minus_one
  submit_filled fuel cport (some msg) = do
    ret ← ap_rx_submit fuel msg cport
    return (if is_negative ret then ret else pos 0)

  -- the part of `hdlc_process_greybus_frame` behind `gb_message_alloc`
  unfoldable pub submit_frame : ℕ → Bytes → Option Message → M k ℤ
  unfolding submit_filled
  submit_frame fuel buffer none = return minus_one
  submit_frame fuel buffer (some msg) = do
    filled ← memcpy_payload (some msg) (drop (2 + sizeof_hdr) buffer) (gb_message_payload_len msg)
    cport ← frame_word buffer 0
    submit_filled fuel cport filled

  unfoldable pub hdlc_process_greybus_frame : ℕ → Bytes → M k ℤ
  unfolding submit_frame
  hdlc_process_greybus_frame fuel buffer =
      let msg_len = sub_size (length buffer) 2 in
      do
        size ← frame_word buffer 2
        (if ltb msg_len size then return minus_one else (do
          operation_id ← frame_word buffer 4
          type ← frame_byte buffer 6
          result ← frame_byte buffer 7
          let hdr : MsgHdr = record {
            size = size;
            operation_id = operation_id;
            type = type;
            result = result;
            pad = (get_or buffer 8 0, get_or buffer 9 0);
          }
          allocated ← gb_message_alloc (gb_hdr_payload_len hdr) type operation_id result
          submit_frame fuel buffer allocated))

  -- `tcp_discovery_start` and `tcp_discovery_stop` of src/tcp_discovery.c, in the configuration of
  -- prj.conf, with no mDNS
  unfoldable pub tcp_discovery_start : M k (Unit {0})
  tcp_discovery_start = modify (λ w. record w { discovery = true })

  unfoldable pub tcp_discovery_stop : M k (Unit {0})
  tcp_discovery_stop = modify (λ w. record w { discovery = false })

  -- `case CONTROL_SVC_START`; `ap_init` and `apbridge_init` are empty.
  unfoldable pub start_svc : M k ℤ
  start_svc = do
    svc_init
    ret ← connection_create ap_inf_id 0 svc_inf_id 0
    (if is_negative ret
        then return ret
        else (do svc_send_version; tcp_discovery_start; return (pos 0)))

  -- `case CONTROL_SVC_STOP`; `ap_deinit` is empty.
  unfoldable pub stop_svc : M k ℤ
  stop_svc = do
    tcp_discovery_stop
    node_destroy_all
    svc_deinit
    modify (λ w. record w { node_ap_map = apbridge_deinit w.node_ap_map })
    return (pos 0)

  unfoldable pub control_process_frame : Bytes → M k ℤ
  control_process_frame buffer =
      if length buffer == 1
      then (let command = get_or buffer 0 0 in
          if command == control_svc_start
          then start_svc
          else if command == control_svc_stop
          then stop_svc
          else return minus_one)
      else return minus_one

  unfoldable pub hdlc_process_complete_frame : ℕ → Bytes → ℕ → M k ℤ
  hdlc_process_complete_frame fuel buffer address =
      if address == address_greybus
      then hdlc_process_greybus_frame fuel buffer
      else if address == address_control
      then control_process_frame buffer
      else if address == address_dbg
      then return (pos 0)
      else return minus_one
