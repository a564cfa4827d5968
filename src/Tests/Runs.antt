-- ===== src/Tests/Runs.antt =====
-- A run of the firmware from its start.
use cc1352_firmware.Prelude.{refl, some, true, List, [], ◌∷◌, ◌≡◌, Option, none, length, ℕ}
use cc1352_firmware.Prelude.Int.{pos}
use cc1352_firmware.Firmware.{
  tcp_discovery_start, tcp_discovery_stop, start_svc, control_process_frame,
  hdlc_process_complete_frame,
}
use cc1352_firmware.Hdlc.{hdlc_init, hdlc_save_byte, hdlc_process_frame, hdlc_rx_input_byte}
use cc1352_firmware.Svc.State.{svc_is_ready, svc_init, svc_interface, svc_inf_create_connection}
use cc1352_firmware.Svc.Requests.{
  control_send_request, svc_send_version, svc_send_module_inserted, interface_id,
}
use cc1352_firmware.Node.Filter.{node_filter}
use cc1352_firmware.Node.Connect.{ctrl_data_alloc, cache_interface, node_create_interface}
use cc1352_firmware.Node.Cache.{node_cache_find_by_addr, node_cache_add}
use cc1352_firmware.Node.Receive.{zsock_recv, node_events, node_rx_round}
use cc1352_firmware.LogBackend.{hdlc_uart_out}
use cc1352_firmware.Bridge.Send.{
  send_block, gb_message_hdlc_send, ap_send, connection_send, send_to_ap,
}
use cc1352_firmware.Bridge.Table.{node_ap_add, node_to_ap_cport}
use cc1352_firmware.Bridge.Connect.{
  ends, gb_interface_find_by_id, create_connection, connect, connection_create,
}
use cc1352_firmware.Greybus.Message.{
  gb_message_payload_len, new_operation_id, gb_message_alloc, gb_message_dealloc, memcpy_payload,
  gb_message_request_alloc,
}
use cc1352_firmware.Greybus.Interface.{new_interface_id, gb_interface_alloc}
use cc1352_firmware.Hdlc.Checksum
use cc1352_firmware.Bridge.Connect
use cc1352_firmware.System.World.{Outcome, done, fault, ◌>>◌}
use cc1352_firmware.System.Kernel.{Kernel}
use cc1352_firmware.System.Keeps.{After}
use cc1352_firmware.Serial.{main, frame_callback, receive_byte, receive}
use cc1352_firmware.Node.Thread.{RxThread, Wakeup, poll_sockets, node_rx_thread_entry}
use cc1352_firmware.Tasks.{Task, steps, step}
use cc1352_firmware.Invariant.{IsSound}
use cc1352_firmware.Invariant.Runs.{IsInitial, steps-Sound}
use cc1352_firmware.Tests.Samples.{booted}

booted-IsInitial : IsInitial booted
booted-IsInitial = record {
  operation_ids = refl;
  interface_ids = refl;
  interfaces = refl;
  node_cache = refl;
  node_ap_map = refl;
  rx_buffer = refl;
  uart = refl;
}

-- a frame that starts the SVC, two addresses, a piece of log, and a round of the receiving thread
abbrev tasks : List Task
tasks =
    Task.received (0x7e ∷ 3 ∷ 3 ∷ 1 ∷ 0x49 ∷ 0x12 ∷ 0x7e ∷ [])
    ∷ Task.discovered ((0xfe ∷ 0x80 ∷ []) ∷ (0xfe ∷ 0x81 ∷ []) ∷ [])
    ∷ Task.logged (0x7e ∷ 0x41 ∷ [])
    ∷ Task.woken (Wakeup.slept (some (pos 4, pos 5)))
    ∷ Task.woken Wakeup.poll_failed
    ∷ Task.woken (Wakeup.polled true [])
    ∷ []

steps-Sound_example :
    After IsSound ((do main true (pos 0); steps 100 tasks RxThread.waiting) booted)
steps-Sound_example = steps-Sound 100 tasks 0 booted booted-IsInitial

-- The run ends without a fault, with one node in the cache: to this kernel all
-- addresses are the same.
abbrev cached : {k : Kernel} {A : Type 0} → Outcome k A → Option ℕ
cached (done a w) = some (length w.node_cache)
cached (fault e) = none

one_node : cached ((do main true (pos 0); steps 100 tasks RxThread.waiting) booted) ≡ some 1
unfolding steps Checksum.crc16 Checksum.crc_byte Connect.node_ap_add tcp_discovery_start
    tcp_discovery_stop start_svc control_process_frame hdlc_process_complete_frame frame_callback
    receive_byte receive main step hdlc_init hdlc_save_byte hdlc_process_frame hdlc_rx_input_byte
    svc_is_ready svc_init svc_interface svc_inf_create_connection control_send_request
    svc_send_version svc_send_module_inserted interface_id node_filter ctrl_data_alloc
    cache_interface node_create_interface node_cache_find_by_addr node_cache_add poll_sockets
    node_rx_thread_entry zsock_recv node_events node_rx_round hdlc_uart_out send_block
    gb_message_hdlc_send ap_send connection_send send_to_ap node_ap_add node_to_ap_cport ends
    gb_interface_find_by_id create_connection connect connection_create gb_message_payload_len
    new_operation_id gb_message_alloc gb_message_dealloc memcpy_payload gb_message_request_alloc
    new_interface_id gb_interface_alloc
one_node = refl
