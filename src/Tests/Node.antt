-- ===== src/Tests/Node.antt =====
-- A stream socket that takes two bytes and hands over one byte a call, and worlds with one node and with two; runs of
-- src/node.c on them.
use cc1352_firmware.Prelude.{
  ℕ, ◌≡◌, ◌+◌, ◌≤◌, refl, [], ◌∷◌, ◌++◌, length, take, Bytes, arith, drop, some, suc, false, sym,
  ap, replicate,
}
use cc1352_firmware.Prelude.Int.{ℤ, pos, negsuc}
use cc1352_firmware.System.Kernel.{Kernel}
use cc1352_firmware.System.World.{World, NodeItem, done, IntfPtr}
use cc1352_firmware.Node.Transfer.{write_data, gb_message_send}
use cc1352_firmware.Node.Cache.{node_cache_find_by_sock}
use cc1352_firmware.Node.Receive.{gb_message_receive, node_readable}
use cc1352_firmware.Node.Receiving.{Source, IsWaiting, gb_message_receive-wire}
use cc1352_firmware.Node.Rounds.{IsNode, node_readable-forwarded}
use cc1352_firmware.Bridge.Wire.{wire}
use cc1352_firmware.Node.Sending.{Channel, Delivered, write_data-Delivered}
use cc1352_firmware.Node.Messages.{Sent, gb_message_send-Sent}
use cc1352_firmware.Hdlc.{HdlcDriver, hdlc_block_send_sync}
use cc1352_firmware.Hdlc.Checksum.{crc16-laws}
use cc1352_firmware.Hdlc.RoundTrip.{IsIdle}
use cc1352_firmware.Node.Forwarding.{IsReliable}
use cc1352_firmware.Serial.{receive}
use cc1352_firmware.Serial.Requests.{IsMessage}
use cc1352_firmware.Serial.Forwarding.{IsLinked, receive-forwarded}
use cc1352_firmware.Bridge.Routing.{item_of}
use cc1352_firmware.Bridge.Table.{empty_item, node_to_ap_cport, node_to_ap_cport_from}
use cc1352_firmware.Tests.Samples.{toy, booted, driver, ping_hdr, ping}

-- The network is one stream of bytes: those that are sent go to its end, and those that are
-- received come one by one from its start.
abbrev pub feed : Bytes → ℤ × Bytes × Bytes
feed [] = (pos 0, [], [])
feed (b ∷ bytes) = (pos 1, b ∷ [], bytes)

abbrev pub piping : Kernel
piping = record toy {
  Net = Bytes;
  zsock_socket = λ n family. (pos 3, n);
  zsock_connect = λ n sock addr. (pos 0, n);
  zsock_close = λ n sock. n;
  zsock_send = λ n sock bytes. (pos (length (take 2 bytes)), n ++ take 2 bytes);
  zsock_recv = λ n sock len. feed n;
}

magnitude_of : {m n : ℕ} → pos m ≡ pos n → m ≡ n
magnitude_of e = ap (λ z. elim z [ pos n ↦ n | negsuc n ↦ n ]) e

accepts_two :
    (n : Bytes) (b : ℕ) (bytes : Bytes) (sent : ℕ)
    → pos (length (take 2 (b ∷ bytes))) ≡ pos sent
    → (1 ≤ sent)
      × (sent ≤ length (b ∷ bytes))
      × (n ++ take 2 (b ∷ bytes) ≡ n ++ take sent (b ∷ bytes))
accepts_two n b [] sent e = rw (sym (magnitude_of e)) (omega arith, omega arith, refl)
accepts_two n b (c ∷ bytes) sent e = rw (sym (magnitude_of e)) (omega arith, omega arith, refl)

abbrev pipe : Channel piping (pos 3)
pipe = record { stream = λ n. n; accepts = accepts_two }

abbrev piping_booted : World piping
piping_booted = record {
  heap = 0;
  net = [];
  gb_interface_slab = record { used = 0; next = 100 };
  node_control_data_slab = record { used = 0; next = 200 };
  operation_id_counter = 1;
  interface_id_counter = 3;
  interfaces = [];
  node_control_data = [];
  node_cache = [];
  svc_is_read_flag = false;
  node_ap_map = replicate 32 empty_item;
  hdlc_driver = driver;
  uart = [];
  local_pipe_writer = pos 0;
  discovery = false;
}

abbrev a_node : ℕ → NodeItem
a_node n = record { sock = pos n; id = n; addr = []; inf = 100 + n; fail_count = 0 }

-- two nodes, with the ids 4 and 5
abbrev two_nodes : World toy
two_nodes = record booted {
  node_control_data_slab = record { used = 2; next = 206 };
  gb_interface_slab = record { used = 2; next = 106 };
  interfaces =
      (104, record { id = 4; ctrl_data = 204 }) ∷ (105, record { id = 5; ctrl_data = 205 }) ∷ [];
  node_control_data = (204, pos 4) ∷ (205, pos 5) ∷ [];
  node_cache = a_node 4 ∷ a_node 5 ∷ [];
}

write_data-Delivered_example :
    Delivered pipe piping_booted 3
      ([] ++ (1 ∷ 2 ∷ 3 ∷ []))
      (write_data 3 (pos 3) (1 ∷ 2 ∷ 3 ∷ []) piping_booted)
write_data-Delivered_example =
    write_data-Delivered pipe 3 (1 ∷ 2 ∷ 3 ∷ []) piping_booted (omega arith)

pub feeds :
    (n : Bytes) (b : ℕ) (bytes : Bytes) (len : ℕ)
    → n ≡ b ∷ bytes
    → 1 ≤ len
    → (m : ℕ) × ((feed n).0 ≡ pos (suc m))
      × (suc m ≤ len)
      × (suc m ≤ length (b ∷ bytes))
      × ((feed n).1 ≡ take (suc m) (b ∷ bytes))
      × ((feed n).2 ≡ drop (suc m) (b ∷ bytes))
feeds n b bytes len e h = (0, rw e refl, h, omega arith, rw e refl, rw e refl)

abbrev pub tap : Source piping (pos 3)
tap = record { stream = λ n. n; delivers = feeds }

abbrev waiting : World piping
waiting = record piping_booted { net = wire 1 ping_hdr [] ++ 0xff ∷ []; node_cache = a_node 3 ∷ [] }

ping_waits-IsWaiting : IsWaiting tap 1 0 ping_hdr [] (0xff ∷ []) 1 waiting
ping_waits-IsWaiting = record {
  waits = refl;
  cport_lt = omega arith;
  size_eq = refl;
  size_lt = omega arith;
  id_lt = omega arith;
  room = refl;
}

a_node-IsNode : IsNode waiting (pos 3) 0 (a_node 3)
unfolding node_cache_find_by_sock
a_node-IsNode = record { found = refl; is_at = refl }

gb_message_receive-wire_example :
    (n : Bytes) × (gb_message_receive 8 (pos 3) false waiting
      ≡ done
          (record {
            cport_id = 1;
            msg = some (record {
              ptr = 0;
              block = 8;
              header = record ping_hdr { pad = (0xa5, 0xa5) };
              payload = [];
            });
            closed = false;
          })
          (record waiting { net = n; heap = 1 }))
    × (n ≡ 0xff ∷ [])
gb_message_receive-wire_example =
    gb_message_receive-wire tap 8 1 0 ping_hdr [] (0xff ∷ []) false 1 waiting ping_waits-IsWaiting
      (omega arith)

-- cport 1 of the node is connected with cport 2 of the AP
abbrev forwarding : World piping
forwarding = record waiting {
  node_ap_map =
      empty_item ∷ empty_item ∷ item_of 3 1 (IntfPtr.node_intf 103) ∷ replicate 29 empty_item;
}

forwarding-IsWaiting : IsWaiting tap 1 0 ping_hdr [] (0xff ∷ []) 1 forwarding
forwarding-IsWaiting = record {
  waits = refl;
  cport_lt = omega arith;
  size_eq = refl;
  size_lt = omega arith;
  id_lt = omega arith;
  room = refl;
}

forwarding-IsNode : IsNode forwarding (pos 3) 0 (a_node 3)
unfolding node_cache_find_by_sock
forwarding-IsNode = record { found = refl; is_at = refl }

to_cport_2 : node_to_ap_cport forwarding.node_ap_map 3 1 ≡ pos 2
unfolding node_to_ap_cport node_to_ap_cport_from
to_cport_2 = refl

node_readable-forwarded_example :
    (n : Bytes) × (node_readable 8 (pos 3) false forwarding
      ≡ done false (record forwarding {
        net = n;
        uart =
            []
            ++ hdlc_block_send_sync piping.crc16_ccitt forwarding.hdlc_driver
                (wire 2 (record ping_hdr { pad = (0xa5, 0xa5) }) [])
                1
                3;
        heap = 1;
      }))
    × (n ≡ 0xff ∷ [])
node_readable-forwarded_example =
    node_readable-forwarded tap 8 1 2 0 0 ping_hdr [] (0xff ∷ []) 1 forwarding (a_node 3)
      forwarding-IsWaiting (omega arith) (omega arith) forwarding-IsNode
      (λ e. absurd (omega (arith, e))) to_cport_2 (omega arith)

gb_message_send-Sent_example :
    Sent pipe piping_booted
      ([] ++ wire 1 ping_hdr [])
      (gb_message_send 8 (pos 3) ping 1 piping_booted)
gb_message_send-Sent_example =
    gb_message_send-Sent pipe 8 1 ping piping_booted refl (omega arith) (omega arith)

abbrev linked : World piping
linked = record forwarding {
  net = [];
  interfaces = (103, record { id = 3; ctrl_data = 203 }) ∷ [];
  node_control_data = (203, pos 3) ∷ [];
}

pipe-IsReliable : IsReliable piping (pos 3)
pipe-IsReliable n b bytes e f = cc

ping-IsMessage : IsMessage 2 ping_hdr []
ping-IsMessage = record {
  cport_lt = omega arith;
  size_eq = refl;
  fits = omega arith;
  id_lt = omega arith;
  type_lt = omega arith;
  result_lt = omega arith;
  pad_lt = (omega arith, omega arith);
  bytes = tt;
}

linked-IsLinked : IsLinked linked 2 1 103 (pos 3)
linked-IsLinked = record {
  item = item_of 3 1 (IntfPtr.node_intf 103);
  is_at = refl;
  is_node = refl;
  cport_eq = refl;
  socket = record { intf = record { id = 3; ctrl_data = 203 }; found = refl; block = refl };
}

linked-IsIdle : IsIdle linked.hdlc_driver
linked-IsIdle = record { size = refl; empty = refl; fresh_crc = refl; not_escaped = refl }

receive-forwarded_example :
    (d : HdlcDriver) × (n : Bytes) × IsIdle d
    × (receive 9 (hdlc_block_send_sync piping.crc16_ccitt driver (wire 2 ping_hdr []) 1 3) linked
        ≡ done tt (record linked { hdlc_driver = d; net = n; heap = 1 }))
    × (n ≡ [] ++ wire 1 (record ping_hdr { pad = (0xa5, 0xa5) }) [])
receive-forwarded_example =
    receive-forwarded (pos 3) pipe-IsReliable pipe 9 2 1 103 0 ping_hdr [] 1 linked driver
      crc16-laws linked-IsIdle ping-IsMessage linked-IsLinked (omega arith) refl
