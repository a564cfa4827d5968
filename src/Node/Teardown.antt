-- ===== src/Node/Teardown.antt =====
-- src/node.c: `node_destroy_all`, whose loop index runs ahead of the items that move up.
use cc1352_firmware.Prelude.{
  ℕ, zero, suc, ◌+◌, ◌-◌, ◌≤◌, ◌≡◌, refl, ap, ◌∙◌, inl, inr, Option-cases, length, get_elem?,
  get_elem?-some_lt, [], ◌∷◌, some, arith, if◌then◌else◌,
}
use cc1352_firmware.Prelude.Int.{ℤ, is_negative}
use cc1352_firmware.Prelude.Assoc.{lookup, remove}
use cc1352_firmware.System.Kernel.{Kernel}
use cc1352_firmware.System.World.{World, NodeItem, NodeInterface, done, fault, assertion}
use cc1352_firmware.Greybus.Interface.{gb_interface_dealloc}
use cc1352_firmware.Node.Cache.{
  node_cache_find_by_id, node_cache_remove_at, node_cache_remove_by_id,
}
use cc1352_firmware.Node.Consistency.{SlabUse, IsConsistent}
use cc1352_firmware.Node.Leaving.{destroy_node-Consistent}
use cc1352_firmware.Node.Destroy.{ctrl_data_free, destroy_node, node_destroy_from, node_destroy_all}

-- What the slabs promise: the number in use falls by one with each block given back.
abbrev pub SlabLaw : Kernel → Type 0
SlabLaw k =
    (s : k.Slab) (p : ℕ)
    → k.k_mem_slab_num_used_get (k.k_mem_slab_free s p) ≡ k.k_mem_slab_num_used_get s - 1

-- The item stands for a live interface with a live control block.
pub record IsLive {k : Kernel} (w : World k) (item : NodeItem) : Type 0 where
  pub intf : NodeInterface
  pub sock : ℤ
  pub found : lookup item.inf w.interfaces ≡ some intf
  pub same_id : intf.id ≡ item.id
  pub block : lookup intf.ctrl_data w.node_control_data ≡ some sock

module _ {k : Kernel} where
  -- Where the slabs count what is given back, the cache holds two nodes, the first of them live, and
  -- two control blocks are in use, `node_destroy_all` fails the assertion at its end: it destroys
  -- the first node only.
  node_destroy_all_two :
      (law : SlabLaw k) (w : World k) (a b : NodeItem)
      → w.node_cache ≡ a ∷ b ∷ []
      → IsLive w a
      → k.k_mem_slab_num_used_get w.node_control_data_slab ≡ 2
      → node_destroy_all w ≡ fault assertion
  unfolding node_destroy_all node_destroy_from destroy_node ctrl_data_free gb_interface_dealloc
      node_cache_remove_by_id node_cache_find_by_id node_cache_remove_at
  node_destroy_all_two law w a b c l u =
      ground (arith, l.found, l.same_id, l.block, law w.node_control_data_slab l.intf.ctrl_data)

  -- The loop leaves a node over, and its control block, unless it started with one node only.
  node_destroy_from-left :
      (law : SlabLaw k) (u : SlabUse k) (fuel i : ℕ) (w : World k)
      → IsConsistent u w
      → 2 ≤ i + length w.node_cache
      → 1 ≤ length w.node_cache
      → k.k_mem_slab_num_used_get w.node_control_data_slab ≡ length w.node_cache
      → (w' : World k) × (node_destroy_from fuel i w ≡ done tt w')
        × (1 ≤ k.k_mem_slab_num_used_get w'.node_control_data_slab)
  unfolding node_destroy_from
  node_destroy_from-left law u zero i w g two one used = (w, refl, omega (arith, one, used))
  node_destroy_from-left law u (suc fuel) i w g two one used =
      elim (Option-cases (get_elem? w.node_cache i)) [
        | inl past ↦ (w, ground (arith, past), omega (arith, one, used))
        | inr (item, h) ↦
            let inside = get_elem?-some_lt w.node_cache i h in
            let (next, c, e, g', shorter, back, gone, _, _, _) =
              destroy_node-Consistent u i item w g h in
            let count = ap k.k_mem_slab_num_used_get back ∙ law w.node_control_data_slab c in
            let (w', f, left) =
              node_destroy_from-left law u fuel (i + 1) next g'
                (omega (arith, two, shorter, inside)) (omega (arith, two, shorter, inside))
                (omega (arith, count, used, shorter)) in
            (w', ground (arith, h, e, f), left)
      ]

  -- Where the slabs are used as documented and count what is given back, cache, interfaces and
  -- control blocks agree, the cache holds two nodes or more, and as many control blocks are in use,
  -- `node_destroy_all` fails the assertion at its end: it leaves nodes over.
  pub node_destroy_all_several :
      (law : SlabLaw k) (u : SlabUse k) (w : World k)
      → IsConsistent u w
      → 2 ≤ length w.node_cache
      → k.k_mem_slab_num_used_get w.node_control_data_slab ≡ length w.node_cache
      → node_destroy_all w ≡ fault assertion
  unfolding node_destroy_all
  node_destroy_all_several law u w g two used =
      let (w', e, left) =
        node_destroy_from-left law u (length w.node_cache) 0 w g (omega (arith, two))
          (omega (arith, two)) used in
      ground (arith, e, left)

  -- Where the slabs count what is given back, the cache holds one node, which is live, and one
  -- control block is in use, `node_destroy_all` succeeds: it closes the node's socket, if it has
  -- one, gives back its interface and its control block, empties the cache, and changes nothing
  -- else.
  node_destroy_all_one :
      (law : SlabLaw k) (w : World k) (a : NodeItem) (l : IsLive w a)
      → w.node_cache ≡ a ∷ []
      → k.k_mem_slab_num_used_get w.node_control_data_slab ≡ 1
      → node_destroy_all w
        ≡ done tt (record w {
          net = if is_negative l.sock then w.net else k.zsock_close w.net l.sock;
          node_cache = [];
          node_control_data_slab = k.k_mem_slab_free w.node_control_data_slab l.intf.ctrl_data;
          node_control_data = remove l.intf.ctrl_data w.node_control_data;
          gb_interface_slab = k.k_mem_slab_free w.gb_interface_slab a.inf;
          interfaces = remove a.inf w.interfaces;
        })
  unfolding node_destroy_all node_destroy_from destroy_node ctrl_data_free gb_interface_dealloc
      node_cache_remove_by_id node_cache_find_by_id node_cache_remove_at
  node_destroy_all_one law w a l c u =
      ground (arith, l.found, l.same_id, l.block, law w.node_control_data_slab l.intf.ctrl_data)
