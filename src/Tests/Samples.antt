-- ===== src/Tests/Samples.antt =====
-- A kernel with a heap that hands out ascending addresses and never runs out, slabs of four
-- objects, and sockets that take every byte; and a firmware that has just started.
use cc1352_firmware.Prelude.{
  ℕ, ◌≡◌, refl, ◌∷◌, ◌+◌, ◌-◌, true, false, [], Option, none, some, ltb, if◌then◌else◌, length,
  replicate,
}
use cc1352_firmware.Prelude.Int.{pos}
use cc1352_firmware.Hdlc.{HdlcDriver}
use cc1352_firmware.Hdlc.Checksum.{crc16}
use cc1352_firmware.System.Kernel.{Kernel}
use cc1352_firmware.System.World.{World, svc_intf}
use cc1352_firmware.Greybus.Message.{MsgHdr, Message}
use cc1352_firmware.Bridge.Table.{empty_item, node_to_ap_cport, node_to_ap_cport_from}
use cc1352_firmware.Bridge.Routing.{item_of}

pub record Pool : Type 0 where
  pub used : ℕ
  pub next : ℕ

abbrev pub pool_alloc : Pool → Option (ℕ × Pool)
pool_alloc s =
    if ltb s.used 4 then some (s.next, record { used = s.used + 1; next = s.next + 1 }) else none

abbrev pub toy : Kernel
toy = record {
  Heap = ℕ;
  k_heap_alloc = λ h n. some (h, h + 1);
  k_heap_free = λ h p. h;
  memory = λ h a. 0xa5;
  Slab = Pool;
  k_mem_slab_alloc = pool_alloc;
  k_mem_slab_free = λ s p. record { used = s.used - 1; next = s.next };
  k_mem_slab_num_used_get = λ s. s.used;
  Net = ℕ;
  zsock_socket = λ n family. (pos (n + 3), n + 1);
  zsock_connect = λ n sock addr. (pos 0, n);
  zsock_close = λ n sock. n;
  zsock_send = λ n sock bytes. (pos (length bytes), n);
  zsock_recv = λ n sock len. (pos 0, [], n);
  net_ipv6_addr_cmp = λ a b. true;
  crc16_ccitt = crc16;
}

-- the same with a heap that is full
abbrev pub full : Kernel
full = record toy { k_heap_alloc = λ h n. none }

abbrev pub driver : HdlcDriver
driver = record {
  crc = 0xffff;
  next_escaped = false;
  rx_send_seq = 0;
  send_seq = 0;
  rx_buffer_len = 0;
  rx_buffer = replicate 256 0;
}

abbrev pub booted : World toy
booted = record {
  heap = 0;
  net = 0;
  gb_interface_slab = record { used = 0; next = 100 };
  node_control_data_slab = record { used = 0; next = 200 };
  operation_id_counter = 1;
  interface_id_counter = 3;
  interfaces = [];
  node_control_data = [];
  node_cache = [];
  svc_is_read_flag = false;
  node_ap_map = replicate 32 empty_item;
  hdlc_driver = driver;
  uart = [];
  local_pipe_writer = pos 0;
  discovery = false;
}

abbrev pub booted_full : World full
booted_full = record {
  heap = 0;
  net = 0;
  gb_interface_slab = record { used = 0; next = 100 };
  node_control_data_slab = record { used = 0; next = 200 };
  operation_id_counter = 1;
  interface_id_counter = 3;
  interfaces = [];
  node_control_data = [];
  node_cache = [];
  svc_is_read_flag = false;
  node_ap_map = replicate 32 empty_item;
  hdlc_driver = driver;
  uart = [];
  local_pipe_writer = pos 0;
  discovery = false;
}

-- a ping with id 7
abbrev pub ping_hdr : MsgHdr
ping_hdr = record { size = 8; operation_id = 7; type = 0x13; result = 0; pad = (0, 0) }

abbrev pub ping : Message
ping = record { ptr = 50; block = 8; header = ping_hdr; payload = [] }

-- cport 0 of the AP is connected with the SVC
abbrev pub connected : World toy
connected = record booted {
  svc_is_read_flag = true;
  node_ap_map = item_of 0 0 svc_intf ∷ replicate 31 empty_item;
}

pub to_cport_0 : node_to_ap_cport connected.node_ap_map 0 0 ≡ pos 0
unfolding node_to_ap_cport node_to_ap_cport_from
to_cport_0 = refl
