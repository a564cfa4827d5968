-- ===== src/Node/Announcing.antt =====
-- src/node.c and src/tcp_discovery.c: a node that discovery has found is announced to the AP, once.
use cc1352_firmware.Prelude.{
  ℕ, suc, ◌+◌, ◌%◌, ◌<◌, ◌≡◌, refl, Bool, true, Bool-cases, inl, inr, ==_refl, ◌==◌, if◌then◌else◌,
  List, [], ◌∷◌, ◌++◌, none, some, arith, length, Bytes,
}
use cc1352_firmware.Prelude.Int.{pos, minus_one}
use cc1352_firmware.Hdlc.{hdlc_block_send_sync}
use cc1352_firmware.System.Kernel.{Kernel}
use cc1352_firmware.Greybus.Message.{padding}
use cc1352_firmware.System.World.{World, IntfPtr, NodeItem, done, ◌>>=◌, ◌>>◌}
use cc1352_firmware.Greybus.Interface.{interface_id_start, new_interface_id, gb_interface_alloc}
use cc1352_firmware.Bridge.Table.{node_to_ap_cport}
use cc1352_firmware.Svc.Requests.{interface_id, svc_send_module_inserted, stale_id_at}
use cc1352_firmware.Bridge.Wire.{wire}
use cc1352_firmware.Svc.Responses.{control_send_request_lem}
use cc1352_firmware.Node.Cache.{
  max_greybus_nodes, find_index, node_cache_add, node_cache_find_by_addr,
}
use cc1352_firmware.Node.Connect.{ctrl_data_alloc, cache_interface, node_create_interface}
use cc1352_firmware.Node.Filter.{node_filter}

-- Both slabs and the cache have room for a node, and the SVC can send a request of four bytes.
pub record HasRoom {k : Kernel} (w : World k) : Type 0 where
  pub c : ℕ
  pub sc : k.Slab
  pub block : k.k_mem_slab_alloc w.node_control_data_slab ≡ some (c, sc)
  pub p : ℕ
  pub si : k.Slab
  pub interface : k.k_mem_slab_alloc w.gb_interface_slab ≡ some (p, si)
  pub cache : length w.node_cache < max_greybus_nodes
  pub cport : ℕ
  pub connected : node_to_ap_cport w.node_ap_map 0 0 ≡ pos cport
  pub cport_lt : cport < 65536
  pub q : ℕ
  pub h : k.Heap
  pub heap : k.k_heap_alloc w.heap 12 ≡ some (q, h)
  pub counter_lt : w.operation_id_counter < 65535

-- the search finds an item that was put at the end
find_index_last :
    (test : NodeItem → Bool) (cache : List NodeItem) (item : NodeItem)
    → test item ≡ true
    → (at : ℕ) × (find_index test (cache ++ item ∷ []) ≡ some at)
find_index_last test [] item t = (0, rw t refl)
find_index_last test (x ∷ cache) item t = elim (Bool-cases (test x)) [
  | inl passes ↦ (0, rw passes refl)
  | inr fails ↦ let (at, e) = find_index_last test cache item t in (suc at, rw (fails, e) refl)
]

module _ {k : Kernel} where
  -- the state with a new node at the address
  abbrev with_node : (w : World k) → HasRoom w → Bytes → World k
  with_node w r addr =
      let id = w.interface_id_counter % 256 in
      record w {
        gb_interface_slab = r.si;
        node_control_data_slab = r.sc;
        interface_id_counter =
            if w.interface_id_counter == 255
            then interface_id_start
            else w.interface_id_counter + 1;
        interfaces = (r.p, record { id = id; ctrl_data = r.c }) ∷ w.interfaces;
        node_control_data = (r.c, minus_one) ∷ w.node_control_data;
        node_cache =
            w.node_cache
            ++ record { sock = minus_one; id = id; addr = addr; inf = r.p; fail_count = 0 } ∷ [];
      }

  -- and with the request about it on the line
  abbrev pub announced : (w : World k) → HasRoom w → Bytes → World k
  announced w r addr = record (with_node w r addr) {
    operation_id_counter = w.operation_id_counter + 1;
    uart =
        w.uart
        ++ hdlc_block_send_sync k.crc16_ccitt w.hdlc_driver
            (wire r.cport
              (record {
                size = 12;
                operation_id = w.operation_id_counter;
                type = 0x1f;
                result = 0;
                pad = padding k r.h r.q;
              })
              (w.interface_id_counter % 256 ∷ 1 ∷ 0 ∷ 0 ∷ []))
            1 3;
    heap = k.k_heap_free r.h r.q;
  }

  node_create_interface_room :
      (addr : Bytes) (w : World k) (r : HasRoom w)
      → node_create_interface addr w ≡ done (some r.p) (with_node w r addr)
  unfolding node_create_interface ctrl_data_alloc gb_interface_alloc new_interface_id
      cache_interface node_cache_add
  node_create_interface_room addr w r = ground (arith, r.block, r.interface, ==_refl r.p, r.cache)

  svc_send_module_inserted_lem :
      (addr : Bytes) (w : World k) (r : HasRoom w)
      → svc_send_module_inserted (w.interface_id_counter % 256) (with_node w r addr)
        ≡ done (pos (stale_id_at k (k.k_heap_free r.h r.q) r.q)) (announced w r addr)
  unfolding svc_send_module_inserted
  svc_send_module_inserted_lem addr w r =
      control_send_request_lem (w.interface_id_counter % 256 ∷ 1 ∷ 0 ∷ 0 ∷ []) 0x1f r.q r.cport r.h
        (with_node w r addr) (omega arith) r.counter_lt r.heap r.connected r.cport_lt

  interface_id_new :
      (addr : Bytes) (w : World k) (r : HasRoom w)
      → interface_id (IntfPtr.node_intf r.p) (with_node w r addr)
        ≡ done (w.interface_id_counter % 256) (with_node w r addr)
  unfolding interface_id
  interface_id_new addr w r = ground (arith, ==_refl r.p)

  -- Where the slabs, the cache and the heap have room, and the SVC is connected, an address that no
  -- node of the cache has gets a node: its interface, with the next id, and its control block are
  -- taken from the slabs, the cache has one item more, with no socket yet, and exactly one frame
  -- goes out, which tells the AP of the module with this id; the padding of its header is what its
  -- block of memory held. When the same address is found again, nothing changes, if an address is
  -- equal to itself.
  pub node_filter-announced :
      (addr : Bytes) (w : World k) (r : HasRoom w)
      → node_cache_find_by_addr k.net_ipv6_addr_cmp w.node_cache addr ≡ none
      → k.net_ipv6_addr_cmp addr addr ≡ true
      → (node_filter (addr ∷ []) w ≡ done tt (announced w r addr))
        × (node_filter (addr ∷ []) (announced w r addr) ≡ done tt (announced w r addr))
  unfolding node_filter node_cache_find_by_addr
  node_filter-announced addr w r unknown same =
      let new : NodeItem = record {
        sock = minus_one;
        id = w.interface_id_counter % 256;
        addr = addr;
        inf = r.p;
        fail_count = 0;
      } in
      let (at, again) =
        find_index_last (λ (n : NodeItem). k.net_ipv6_addr_cmp n.addr addr) w.node_cache new same in
      (
        rw
            (
              ◌>>=◌,
              ◌>>◌,
              unknown,
              node_create_interface_room addr w r,
              interface_id_new addr w r,
              svc_send_module_inserted_lem addr w r,
            )
            refl,
        rw (◌>>=◌, again) refl,
      )
