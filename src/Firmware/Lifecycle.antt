-- ===== src/Firmware/Lifecycle.antt =====
-- src/main.c: starting the SVC.
use cc1352_firmware.Prelude.{ℕ, ◌+◌, ◌<◌, ◌≡◌, refl, true, List, [], ◌∷◌, ◌++◌, some, none, arith}
use cc1352_firmware.Prelude.Int.{pos, minus_ealready}
use cc1352_firmware.Hdlc.{hdlc_block_send_sync}
use cc1352_firmware.System.Kernel.{Kernel}
use cc1352_firmware.Greybus.Message.{padding}
use cc1352_firmware.System.World.{World, IntfPtr, svc_intf, NodeApItem, done}
use cc1352_firmware.Bridge.Table
use cc1352_firmware.Bridge.Table.{node_to_ap_cport, node_to_ap_cport_from, ap_max_nodes}
use cc1352_firmware.Bridge.Routing.{item_of}
use cc1352_firmware.Bridge.Connect.{
  connection_create, connect, ends, gb_interface_find_by_id, create_connection, node_ap_add,
}
use cc1352_firmware.Svc.State.{svc_init, svc_is_ready, svc_interface, svc_inf_create_connection}
use cc1352_firmware.Svc.Requests.{interface_id, svc_send_version}
use cc1352_firmware.Bridge.Wire.{wire}
use cc1352_firmware.Svc.Responses.{control_send_request_lem}
use cc1352_firmware.Firmware.{start_svc, tcp_discovery_start}

module _ {k : Kernel} where
  -- the connection of cport 0 of the AP with the SVC, on a table whose first item is `item`
  create_svc :
      (w : World k) (item : NodeApItem) (items : List NodeApItem)
      → w.node_ap_map ≡ item ∷ items
      → item.node_intf ≡ none
      → w.svc_is_read_flag ≡ true
      → connection_create 1 0 0 0 w
        ≡ done (pos 0) (record w { node_ap_map = item_of 0 0 svc_intf ∷ items })
  unfolding connection_create connect ends gb_interface_find_by_id create_connection node_ap_add
      Table.node_ap_add svc_is_ready svc_interface svc_inf_create_connection interface_id
  create_svc w item items m free ready = ground arith

  -- Where the first item of the table is free, the heap has room for ten bytes and the operation
  -- id is below 65535, starting the SVC returns 0: the SVC is ready, cport 0 of the AP is connected
  -- with it, the version request with the next operation id goes out as one frame to that cport
  -- and its memory is given back, discovery runs, and nothing else changes. The padding of the
  -- frame's header is what its block of memory held. The code reads the operation id from that
  -- block after it was freed; whatever bytes it reads, they change nothing.
  pub start_svc_lem :
      (w : World k) (item : NodeApItem) (items : List NodeApItem) (p : ℕ) (h : k.Heap)
      → w.node_ap_map ≡ item ∷ items
      → item.node_intf ≡ none
      → w.operation_id_counter < 65535
      → k.k_heap_alloc w.heap 10 ≡ some (p, h)
      → start_svc w
        ≡ done (pos 0) (record w {
          svc_is_read_flag = true;
          node_ap_map = item_of 0 0 svc_intf ∷ items;
          operation_id_counter = w.operation_id_counter + 1;
          uart =
              w.uart
              ++ hdlc_block_send_sync k.crc16_ccitt w.hdlc_driver
                  (wire 0
                    (record {
                      size = 10;
                      operation_id = w.operation_id_counter;
                      type = 0x01;
                      result = 0;
                      pad = padding k h p;
                    })
                    (0 ∷ 1 ∷ []))
                  1
                  3;
          heap = k.k_heap_free h p;
          discovery = true;
        })
  unfolding start_svc svc_init svc_send_version tcp_discovery_start node_to_ap_cport
      node_to_ap_cport_from
  start_svc_lem w item items p h m free o e =
      let ready = record w { svc_is_read_flag = true } in
      let made = record ready { node_ap_map = item_of 0 0 svc_intf ∷ items } in
      ground (
        arith,
        create_svc ready item items m free refl,
        control_send_request_lem (0 ∷ 1 ∷ []) 0x01 p 0 h made (omega arith) o e refl (omega arith),
      )

  -- While the first item of the table is in use, starting is refused with -EALREADY: the SVC is
  -- ready, and no other part of the state changes.
  start_svc_again :
      (w : World k) (item : NodeApItem) (items : List NodeApItem) (old : IntfPtr)
      → w.node_ap_map ≡ item ∷ items
      → item.node_intf ≡ some old
      → start_svc w ≡ done minus_ealready (record w { svc_is_read_flag = true })
  unfolding start_svc svc_init connection_create connect ends gb_interface_find_by_id
      create_connection node_ap_add Table.node_ap_add svc_is_ready svc_interface
      svc_inf_create_connection interface_id
  start_svc_again w item items old m busy = ground arith
