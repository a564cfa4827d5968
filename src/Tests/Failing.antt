-- ===== src/Tests/Failing.antt =====
-- A node whose socket fails.
use cc1352_firmware.Prelude.{◌≡◌, refl, true, [], ◌∷◌, some, arith, replicate}
use cc1352_firmware.Prelude.Int.{ℤ, pos, negsuc, minus_one}
use cc1352_firmware.System.Kernel.{Kernel}
use cc1352_firmware.System.World.{World, NodeItem, svc_intf, fault, use_after_free}
use cc1352_firmware.Greybus.Interface.{new_interface_id, gb_interface_alloc}
use cc1352_firmware.Bridge.Table.{empty_item, node_to_ap_cport, node_to_ap_cport_from}
use cc1352_firmware.Bridge.Routing.{item_of}
use cc1352_firmware.Node.Cache.{node_cache_add, node_cache_find_by_id, node_cache_find_by_sock}
use cc1352_firmware.Node.Connect.{
  pipe_send, connect_to_node, open_node, node_intf_create_connection, ctrl_data_alloc,
  cache_interface, node_create_interface,
}
use cc1352_firmware.Node.Transfer.{node_inf_write}
use cc1352_firmware.Node.Consistency.{SlabUse, IsConsistent}
use cc1352_firmware.Node.Failing.{CanRemove, node_inf_write_failed}
use cc1352_firmware.Node.Life.{IsFresh, Call, Life, Life-Consistent}
use cc1352_firmware.Tests.Samples.{toy, driver, ping}
use cc1352_firmware.Tests.Life.{toy_use}

abbrev pub broken : Kernel
broken = record toy { zsock_send = λ n sock bytes. (negsuc 31, n) }

abbrev pub broken_use : SlabUse broken
broken_use = record {
  InUse = toy_use.InUse;
  alloc_fresh = toy_use.alloc_fresh;
  alloc_used = toy_use.alloc_used;
  alloc_keeps = toy_use.alloc_keeps;
  free_keeps = toy_use.free_keeps;
}

abbrev pub started : World broken
started = record {
  heap = 0;
  net = 0;
  gb_interface_slab = record { used = 0; next = 100 };
  node_control_data_slab = record { used = 0; next = 200 };
  operation_id_counter = 1;
  interface_id_counter = 3;
  interfaces = [];
  node_control_data = [];
  node_cache = [];
  svc_is_read_flag = true;
  node_ap_map = item_of 0 0 svc_intf ∷ replicate 31 empty_item;
  hdlc_driver = driver;
  uart = [];
  local_pipe_writer = pos 0;
  discovery = true;
}

abbrev pub the_node : ℤ → NodeItem
the_node sock = record { sock = sock; id = 3; addr = 3 ∷ []; inf = 100; fail_count = 0 }

abbrev pub opened : World broken
opened = record started {
  net = 1;
  gb_interface_slab = record { used = 1; next = 101 };
  node_control_data_slab = record { used = 1; next = 201 };
  interface_id_counter = 4;
  interfaces = (100, record { id = 3; ctrl_data = 200 }) ∷ [];
  node_control_data = (200, pos 3) ∷ [];
  node_cache = the_node (pos 3) ∷ [];
}

started-Consistent : IsConsistent broken_use started
started-Consistent = record {
  backed = λ i item h. absurd (cc);
  apart = λ i j a b h. absurd (cc);
  intf_used = λ p x h. absurd (cc);
  ctrl_used = λ c s h. absurd (cc);
  simple_intfs = tt;
  simple_ctrls = tt;
  bounded = omega arith;
}

IsFresh-started : IsFresh started
IsFresh-started i a h = absurd (cc)

opened-Life : Life started opened
unfolding node_create_interface ctrl_data_alloc gb_interface_alloc new_interface_id cache_interface
    node_cache_add node_intf_create_connection open_node connect_to_node pipe_send
    node_cache_find_by_id
opened-Life =
    Life.call (Call.connect 100 0) (0, the_node minus_one, refl, refl) refl
      (Life.call (Call.create (3 ∷ [])) IsFresh-started refl Life.begin)

pub opened-Consistent : IsConsistent broken_use opened
opened-Consistent = (Life-Consistent broken_use started opened started-Consistent opened-Life).0

opened-CanRemove : CanRemove opened
unfolding node_to_ap_cport node_to_ap_cport_from
opened-CanRemove = record {
  cport = 0;
  p = 0;
  h = 1;
  connected = refl;
  cport_lt = omega arith;
  room = refl;
  counter_lt = omega arith;
}

find_sock : node_cache_find_by_sock opened.node_cache (pos 3) ≡ some 0
unfolding node_cache_find_by_sock
find_sock = refl

node_inf_write_failed_example : node_inf_write 9 100 ping 1 opened ≡ fault use_after_free
node_inf_write_failed_example =
    node_inf_write_failed broken_use 8 0 31 1 (the_node (pos 3)) ping opened opened-Consistent refl
      find_sock opened-CanRemove refl
