-- ===== src/Tests/Sticky.antt =====
-- A node that is removed since another one is gone.
use cc1352_firmware.Prelude.{true, [], ◌∷◌, ◌++◌}
use cc1352_firmware.Prelude.Int.{pos}
use cc1352_firmware.System.World.{World}
use cc1352_firmware.Bridge.Wire.{wire}
use cc1352_firmware.Node.Consistency.{SlabUse}
use cc1352_firmware.Tests.Samples.{ping_hdr}
use cc1352_firmware.Tests.Life.{toy_use}
use cc1352_firmware.Tests.Node.{piping}
use cc1352_firmware.Tests.Failing.{opened}

abbrev piping_use : SlabUse piping
piping_use = record {
  InUse = toy_use.InUse;
  alloc_fresh = toy_use.alloc_fresh;
  alloc_used = toy_use.alloc_used;
  alloc_keeps = toy_use.alloc_keeps;
  free_keeps = toy_use.free_keeps;
}

-- a node with a socket, whose message waits
abbrev waiting : World piping
waiting = record {
  heap = 0;
  net = wire 1 ping_hdr [] ++ 0xff ∷ [];
  gb_interface_slab = opened.gb_interface_slab;
  node_control_data_slab = opened.node_control_data_slab;
  operation_id_counter = 1;
  interface_id_counter = 4;
  interfaces = opened.interfaces;
  node_control_data = opened.node_control_data;
  node_cache = opened.node_cache;
  svc_is_read_flag = true;
  node_ap_map = opened.node_ap_map;
  hdlc_driver = opened.hdlc_driver;
  uart = [];
  local_pipe_writer = pos 0;
  discovery = true;
}
