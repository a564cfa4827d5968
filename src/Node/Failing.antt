-- ===== src/Node/Failing.antt =====
-- src/node.c: how a node is removed, and what follows when a message cannot be sent to a node.
use cc1352_firmware.Prelude.{
  ℕ, suc, ◌+◌, ◌<◌, ◌≡◌, refl, sym, ap, ◌∙◌, [], ◌∷◌, ◌++◌, none, Bytes, some, arith, get_elem?, lo,
  hi,
}
use mathlib.Core.List.{Perm}
use cc1352_firmware.Prelude.Int.{pos, negsuc}
use cc1352_firmware.Prelude.Assoc.{lookup}
use cc1352_firmware.System.Kernel.{Kernel}
use cc1352_firmware.System.World.{World, IntfPtr, NodeItem, done, fault, use_after_free}
use cc1352_firmware.Greybus.Message.{Message, padding}
use cc1352_firmware.Hdlc.{hdlc_block_send_sync}
use cc1352_firmware.Bridge.Table.{node_to_ap_cport}
use cc1352_firmware.Svc.Requests.{
  interface_id, svc_send_module_removed, control_send_request, stale_id_at,
}
use cc1352_firmware.Bridge.Wire.{wire}
use cc1352_firmware.Svc.Responses.{control_send_request_lem}
use cc1352_firmware.Node.Cache.{node_cache_find_by_sock}
use cc1352_firmware.Node.Destroy.{node_destroy_interface}
use cc1352_firmware.Node.Transfer.{
  zsock_send, write_from, write_data, svc_send_module_removed_by_sock, send_failed, gb_message_send,
  node_inf_write,
}
use cc1352_firmware.Node.Consistency.{SlabUse, IsConsistent}
use cc1352_firmware.Node.Leaving.{destroy_node-Consistent}

-- The SVC can send a request of one byte to the AP: its cport 0 is connected, the heap has room,
-- and the id of the request is not the last one.
pub record CanRemove {k : Kernel} (w : World k) : Type 0 where
  pub cport : ℕ
  pub p : ℕ
  pub h : k.Heap
  pub connected : node_to_ap_cport w.node_ap_map 0 0 ≡ pos cport
  pub cport_lt : cport < 65536
  pub room : k.k_heap_alloc w.heap 9 ≡ some (p, h)
  pub counter_lt : w.operation_id_counter < 65535

module _ {k : Kernel} (u : SlabUse k) where
  removed_again :
      (p : ℕ) (w : World k)
      → lookup p w.interfaces ≡ none
      → svc_send_module_removed (IntfPtr.node_intf p) w ≡ fault use_after_free
  unfolding svc_send_module_removed interface_id
  removed_again p w gone = ground (arith, gone)

  -- the line after a request of one byte
  abbrev pub requested : (w : World k) → CanRemove w → ℕ → ℕ → Bytes
  requested w r type b =
      w.uart
      ++ hdlc_block_send_sync k.crc16_ccitt w.hdlc_driver
          (wire r.cport
            (record {
              size = 9;
              operation_id = w.operation_id_counter;
              type = type;
              result = 0;
              pad = padding k r.h r.p;
            })
            (b ∷ []))
          1 3

  request_sent :
      (b : ℕ) (type : ℕ) (w : World k)
      → IsConsistent u w
      → (r : CanRemove w)
      → (w' : World k) × (control_send_request (b ∷ []) type w
          ≡ done (pos (stale_id_at k (k.k_heap_free r.h r.p) r.p)) w')
        × IsConsistent u w'
        × (w'.node_cache ≡ w.node_cache)
        × (w'.heap ≡ k.k_heap_free r.h r.p)
        × (w'.uart ≡ requested w r type b)
  request_sent b type w g r = (
    record w {
      operation_id_counter = w.operation_id_counter + 1;
      uart = requested w r type b;
      heap = k.k_heap_free r.h r.p;
    },
    control_send_request_lem (b ∷ []) type r.p r.cport r.h w (omega arith) r.counter_lt r.room
        r.connected r.cport_lt,
    g,
    refl,
    refl,
    refl,
  )

  -- What has become of the state when a node was removed: it was taken out of the cache, and no other
  -- was, its interface is not
  -- live, and the line has exactly the request more that tells the AP of it.
  pub record IsRemoved (item : NodeItem) (w : World k) (r : CanRemove w) (w' : World k)
      : Type 0 where
    pub taken_out : Perm w.node_cache (item ∷ w'.node_cache)
    pub gone : lookup item.inf w'.interfaces ≡ none
    pub told : w'.uart ≡ requested w r 0x20 item.id
    pub heap : w'.heap ≡ k.k_heap_free r.h r.p

  -- the node is destroyed
  pub svc_send_module_removed_lem :
      (i : ℕ) (item : NodeItem) (w : World k)
      → IsConsistent u w
      → get_elem? w.node_cache i ≡ some item
      → (r : CanRemove w)
      → (n : ℕ) × (w' : World k) × (svc_send_module_removed (IntfPtr.node_intf item.inf) w
          ≡ done (pos n) w')
        × IsRemoved item w r w'
  unfolding svc_send_module_removed interface_id node_destroy_interface
  svc_send_module_removed_lem i item w g h r =
      let b = g.backed i item h in
      let (after, sent, g', same, given, told) = request_sent b.intf.id 0x20 w g r in
      let at = ap (λ cache. get_elem? cache i) same ∙ h in
      let (w', c, e, _, _, _, gone, heap, uart, taken_out) =
        destroy_node-Consistent u i item after g' at in
      (
        stale_id_at k (k.k_heap_free r.h r.p) r.p,
        w',
        ground (arith, b.found, sent, e),
        record {
          taken_out = rw (sym same) taken_out;
          gone = gone;
          told = uart ∙ told ∙ ap (requested w r 0x20) b.same_id;
          heap = heap ∙ given;
        },
      )

  -- Where the slabs are used as documented, cache, interfaces and control blocks agree, and the SVC
  -- can send a request to the AP: when the first write to the socket of a node of the cache fails,
  -- the node is destroyed, and then its interface is read again to destroy it once more: the run
  -- ends in a use after free.
  pub node_inf_write_failed :
      (fuel i e cport : ℕ) (item : NodeItem) (msg : Message) (w : World k)
      → IsConsistent u w
      → get_elem? w.node_cache i ≡ some item
      → node_cache_find_by_sock w.node_cache item.sock ≡ some i
      → CanRemove (record w { net = (k.zsock_send w.net item.sock (lo cport ∷ hi cport ∷ [])).1 })
      → (k.zsock_send w.net item.sock (lo cport ∷ hi cport ∷ [])).0 ≡ negsuc e
      → node_inf_write (suc fuel) item.inf msg cport w ≡ fault use_after_free
  unfolding node_inf_write gb_message_send write_data write_from zsock_send send_failed
      svc_send_module_removed_by_sock
  node_inf_write_failed fuel i e cport item msg w g h find r failed =
      let b = g.backed i item h in
      let next : World k = record w {
        net = (k.zsock_send w.net item.sock (lo cport ∷ hi cport ∷ [])).1;
      } in
      let (n, w', removed, left) = svc_send_module_removed_lem i item next g h r in
      ground
        (arith, b.found, b.block, failed, find, h, removed, removed_again item.inf w' left.gone)
