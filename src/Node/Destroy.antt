-- ===== src/Node/Destroy.antt =====
-- src/node.c: the end of a node's interface.
use cc1352_firmware.Prelude.{
  ℕ, zero, suc, ◌+◌, not, [], none, some, ◌==◌, if◌then◌else◌, length, get_elem?,
}
use cc1352_firmware.Prelude.Int.{is_negative}
use cc1352_firmware.Prelude.Assoc.{lookup, remove}
use cc1352_firmware.System.Kernel.{Kernel}
use cc1352_firmware.System.World.{
  IntfPtr, NodeInterface, NodeItem, assertion, M, ◌>>=◌, ◌>>◌, return, fail, gets, modify, live,
  non_null, when,
}
use cc1352_firmware.Greybus.Interface.{gb_interface_dealloc}
use cc1352_firmware.Node.Cache.{node_cache_remove_by_id}

module _ {k : Kernel} where
  -- `k_mem_slab_free` of a control block
  unfoldable pub ctrl_data_free : ℕ → M k (Unit {0})
  ctrl_data_free c = modify (λ w. record w {
    node_control_data_slab = k.k_mem_slab_free w.node_control_data_slab c;
    node_control_data = remove c w.node_control_data;
  })

  -- `node_destroy_interface` at the interface of a node
  unfoldable pub destroy_node : ℕ → M k (Unit {0})
  destroy_node p = do
    intfs ← gets (λ w. w.interfaces)
    intf ← live (lookup p intfs)
    ctrls ← gets (λ w. w.node_control_data)
    sock ← live (lookup (NodeInterface.ctrl_data intf) ctrls)
    when (not (is_negative sock)) (modify (λ w. record w { net = k.zsock_close w.net sock }))
    modify (λ w. record w {
      node_cache = node_cache_remove_by_id w.node_cache (NodeInterface.id intf);
    })
    ctrl_data_free (NodeInterface.ctrl_data intf)
    gb_interface_dealloc p

  -- The static interfaces have no control block.
  unfoldable pub node_destroy_interface : IntfPtr → M k (Unit {0})
  node_destroy_interface (IntfPtr.node_intf p) = destroy_node p
  node_destroy_interface _ = non_null none

  -- the loop of `node_destroy_all` at index `i`, with fuel for the rounds left
  unfoldable pub node_destroy_from : ℕ → ℕ → M k (Unit {0})
  node_destroy_from zero i = return tt
  node_destroy_from (suc fuel) i =
      let rest : M k (Unit {0}) = node_destroy_from fuel (i + 1) in
      do
        cache ← gets (λ w. w.node_cache)
        elim (get_elem? cache i) [
          | none ↦ return tt
          | some item ↦ (do destroy_node (NodeItem.inf item); rest)
        ]

  -- `node_destroy_all`: the cache shrinks, so as many rounds as it has items are enough.
  unfoldable pub node_destroy_all : M k (Unit {0})
  node_destroy_all = do
    cache ← gets (λ w. w.node_cache)
    node_destroy_from (length cache) 0
    modify (λ w. record w { node_cache = [] })
    used ← gets (λ w. k.k_mem_slab_num_used_get w.node_control_data_slab)
    if used == 0 then return tt else fail assertion
