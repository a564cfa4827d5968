-- ===== src/Tests/Bridge.antt =====
-- The table of connections against the map that it stands for.
use cc1352_firmware.Prelude.{◌≡◌, inl, refl, [], ◌∷◌, List, none, arith, replicate}
use cc1352_firmware.System.World.{NodeApItem, local_intf}
use cc1352_firmware.Bridge.Table.{empty_item, node_to_ap_cport}
use cc1352_firmware.Bridge.Send.{ap_send, send_to_ap}
use cc1352_firmware.Bridge.Spec.{
  Connection, Connections, Operation, specified, all_specified, IsFirst,
}
use cc1352_firmware.Bridge.Refinement.{
  Refines, implemented, all_implemented, cleared-Refines, implemented-Refines,
  all_implemented-Refines,
}
use cc1352_firmware.Bridge.Search.{node_to_ap_cport-IsFirst, send_to_ap_free}
use cc1352_firmware.Tests.Samples.{booted, ping}

abbrev cleared : List NodeApItem
cleared = replicate 32 empty_item

abbrev nothing : Connections
nothing = λ i. none

abbrev to_board : Connection
to_board = record { node_id = 2; node_cport = 5; intf = local_intf }

-- a connection, one on the same cport, one past the table, and the end of the first
abbrev operations : List Operation
operations =
    Operation.add 3 to_board
    ∷ Operation.add 3 to_board
    ∷ Operation.add 40 to_board
    ∷ Operation.remove 3
    ∷ []

all_implemented-Refines_example :
    ((all_implemented operations cleared).0 ≡ (all_specified operations nothing).0)
    × Refines (all_implemented operations cleared).1 (all_specified operations nothing).1
all_implemented-Refines_example = all_implemented-Refines operations cleared nothing cleared-Refines

abbrev one_table : List NodeApItem
one_table = (implemented (Operation.add 3 to_board) cleared).1

abbrev one_connection : Connections
one_connection = (specified (Operation.add 3 to_board) nothing).1

node_to_ap_cport-IsFirst_example : IsFirst one_connection 2 5 (node_to_ap_cport one_table 2 5)
node_to_ap_cport-IsFirst_example =
    node_to_ap_cport-IsFirst one_table one_connection 2 5
      (implemented-Refines (Operation.add 3 to_board) cleared nothing cleared-Refines).1
      (inl (λ e. absurd (omega (arith, e))))

send_to_ap_free_example : send_to_ap 0 0 ping booted ≡ ap_send ping 0 booted
send_to_ap_free_example = send_to_ap_free nothing ping booted cleared-Refines refl
