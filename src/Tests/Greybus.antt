-- ===== src/Tests/Greybus.antt =====
-- The ids of the counters, the table of connections and the sending of messages at work.
use cc1352_firmware.Prelude.{◌+◌, ◌-◌, ◌%◌, ◌≡◌, refl, ◌∷◌, arith, replicate, inl, inr}
use cc1352_firmware.System.World.{World, svc_intf, fault, null_pointer, out_of_bounds}
use cc1352_firmware.Greybus.Message.{new_operation_id}
use cc1352_firmware.Greybus.Interface.{new_interface_id}
use cc1352_firmware.Greybus.Ids.{nth_call, Returns, new_ids_nth}
use cc1352_firmware.Bridge.Table.{empty_item}
use cc1352_firmware.Bridge.Send.{connection_send}
use cc1352_firmware.Bridge.Routing.{item_of, connection_send_unconnected}
use cc1352_firmware.Firmware.{write_callback}
use cc1352_firmware.Tests.Samples.{toy, booted, ping}

-- from 1, and from the last id on to the first
operation_ids :
    Returns (nth_call 2 new_operation_id booted) 3
    × Returns (nth_call 1 new_operation_id (record booted { operation_id_counter = 65535 })) 1
unfolding new_operation_id
operation_ids = (refl, refl)

new_ids_nth_example :
    Returns (nth_call 70_000 new_operation_id booted) (1 + (1 - 1 + 70_000) % 65535)
    × Returns (nth_call 70_000 new_interface_id booted) (3 + (3 - 3 + 70_000) % 253)
new_ids_nth_example =
    new_ids_nth 70_000 booted (omega arith, omega arith) (omega arith, omega arith)

abbrev connected : World toy
connected = record booted { node_ap_map = item_of 0 0 svc_intf ∷ replicate 31 empty_item }

connection_send_unconnected_example :
    connection_send (write_callback 9) 1 4 ping connected ≡ fault null_pointer
connection_send_unconnected_example =
    connection_send_unconnected (write_callback 9) 4 ping connected refl
      (inr (empty_item, refl, refl))

past_the_table : connection_send (write_callback 9) 1 4000 ping connected ≡ fault out_of_bounds
past_the_table =
    connection_send_unconnected (write_callback 9) 4000 ping connected refl (inl (omega arith))
