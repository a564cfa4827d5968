-- ===== src/Invariant/Nodes.antt =====
-- src/node.c, src/greybus_interfaces.c: nodes that come and go.
use cc1352_firmware.Prelude.{
  ℕ, zero, suc, ◌+◌, ◌-◌, ◌%◌, ◌≤◌, [], ◌∷◌, List, arith, ◌==◌, length, length-set, length-take,
  set, get_elem?, All, Option-cases, Bool-cases, inl, inr,
}
use cc1352_firmware.Prelude.Int.{ℤ}
use cc1352_firmware.System.Kernel.{Kernel}
use cc1352_firmware.System.World.{World, NodeItem, NodeInterface, modify}
use cc1352_firmware.System.Keeps.{
  After-option, Keeps-option, Keeps-bind, Keeps-gets, Keeps-return, Keeps-then, Keeps, Keeps-modify,
  keeps_rules,
}
use cc1352_firmware.Greybus.Interface.{new_interface_id, gb_interface_alloc, gb_interface_dealloc}
use cc1352_firmware.Node.Cache.{
  max_greybus_nodes, node_cache_remove_at, node_cache_remove_by_id, node_cache_find_by_id,
}
use cc1352_firmware.Node.Destroy.{ctrl_data_free, destroy_node, node_destroy_from, node_destroy_all}
use cc1352_firmware.Node.Connect.{ctrl_data_alloc}
use cc1352_firmware.Invariant.{IsSound, IsNodeId, HasNodeId, HasInterfaceId}
use cc1352_firmware.Prelude.Every.{All-set, All-take, All-get_elem?, All-remove}

node_cache_remove_at-All :
    (cache : List NodeItem) (at : ℕ)
    → All HasNodeId cache
    → All HasNodeId (node_cache_remove_at cache at)
unfolding node_cache_remove_at
node_cache_remove_at-All cache at h =
    let last = length cache - 1 in
    elim (Bool-cases (at == last)) [
      | inl is_last ↦ rw is_last (All-take HasNodeId last cache h)
      | inr before ↦ elim (Option-cases (get_elem? cache last)) [
        | inl e ↦ rw (before, e) h
        | inr (item, e) ↦
            rw (before, e)
              (All-take HasNodeId last (set cache at item)
                (All-set HasNodeId cache at item h (All-get_elem? HasNodeId cache last item h e)))
      ]
    ]

node_cache_remove_at-length :
    (cache : List NodeItem) (at : ℕ) → length (node_cache_remove_at cache at) ≤ length cache
unfolding node_cache_remove_at
node_cache_remove_at-length cache at =
    let last = length cache - 1 in
    elim (Option-cases (get_elem? cache last)) [
      | inl e ↦ ground (arith, e, length-take last cache)
      | inr (item, e) ↦ ground (
        arith,
        e,
        length-take last cache,
        length-take last (set cache at item),
        length-set cache at item,
      )
    ]

module _ {k : Kernel} where
  pub with_cache :
      (w : World k) (cache : List NodeItem)
      → IsSound w
      → length cache ≤ max_greybus_nodes
      → All HasNodeId cache
      → IsSound (record w { node_cache = cache })
  with_cache w cache s short ids = record {
    table = s.table;
    operation_ids = s.operation_ids;
    interface_ids = s.interface_ids;
    interfaces = s.interfaces;
    cache = short;
    cached = ids;
    driver = s.driver;
    line = s.line;
  }

  with_interfaces :
      (w : World k) (counter : ℕ) (interfaces : List (ℕ × NodeInterface))
      → IsSound w
      → IsNodeId counter
      → All HasInterfaceId interfaces
      → IsSound (record w { interface_id_counter = counter; interfaces = interfaces })
  with_interfaces w counter interfaces s next ids = record {
    table = s.table;
    operation_ids = s.operation_ids;
    interface_ids = next;
    interfaces = ids;
    cache = s.cache;
    cached = s.cached;
    driver = s.driver;
    line = s.line;
  }

  pub gb_interface_alloc-Keeps :
      (ctrl_data : ℕ) → Keeps (IsSound {k = k}) (gb_interface_alloc ctrl_data)
  unfolding gb_interface_alloc new_interface_id
  gb_interface_alloc-Keeps ctrl_data = record {
    kept = λ w s. After-option IsSound (k.k_mem_slab_alloc w.gb_interface_slab) _ _ s λ x.
        with_interfaces w _
          ((x.0, record { id = w.interface_id_counter % 256; ctrl_data = ctrl_data })
            ∷ w.interfaces)
          s (ground (arith, s.interface_ids)) (omega (arith, s.interface_ids), s.interfaces);
  }

  pub gb_interface_dealloc-Keeps : (p : ℕ) → Keeps (IsSound {k = k}) (gb_interface_dealloc p)
  unfolding gb_interface_dealloc
  gb_interface_dealloc-Keeps p = record {
    kept = λ w s.
        with_interfaces w _ _ s s.interface_ids
          (All-remove HasInterfaceId p w.interfaces s.interfaces);
  }

  pub ctrl_data_free-Keeps : (c : ℕ) → Keeps (IsSound {k = k}) (ctrl_data_free c)
  unfolding ctrl_data_free
  ctrl_data_free-Keeps c = Keeps-modify _ (λ w s. s)

  pub ctrl_data_alloc-Keeps : Keeps (IsSound {k = k}) ctrl_data_alloc
  unfolding ctrl_data_alloc
  ctrl_data_alloc-Keeps = record {
    kept = λ w s. After-option IsSound (k.k_mem_slab_alloc w.node_control_data_slab) _ _ s (λ x. s);
  }

  -- the cache with one item removed
  remove_by_id-Sound :
      (id : ℕ) (w : World k)
      → IsSound w
      → IsSound (record w { node_cache = node_cache_remove_by_id w.node_cache id })
  unfolding node_cache_remove_by_id
  remove_by_id-Sound id w s = elim (Option-cases (node_cache_find_by_id w.node_cache id)) [
    | inl e ↦ rw (e, node_cache_remove_by_id) s
    | inr (at, e) ↦
        rw (e, node_cache_remove_by_id)
          (with_cache w (node_cache_remove_at w.node_cache at) s
            (omega (arith, node_cache_remove_at-length w.node_cache at, s.cache))
            (node_cache_remove_at-All w.node_cache at s.cached))
  ]

  closed-Keeps :
      (sock : ℤ)
      → Keeps (IsSound {k = k}) (modify (λ w. record w { net = k.zsock_close w.net sock }))
  closed-Keeps sock = Keeps-modify _ (λ w s. s)

  uncached-Keeps :
      (id : ℕ)
      → Keeps
          (IsSound {k = k})
          (modify (λ w. record w { node_cache = node_cache_remove_by_id w.node_cache id }))
  uncached-Keeps id = Keeps-modify _ (remove_by_id-Sound id)

  pub destroy_node-Keeps : (p : ℕ) → Keeps (IsSound {k = k}) (destroy_node p)
  unfolding destroy_node
  destroy_node-Keeps p =
      search
        (
          keeps_rules, closed-Keeps, uncached-Keeps, ctrl_data_free-Keeps,
          gb_interface_dealloc-Keeps,
        )
        depth 14

  emptied-Keeps : Keeps (IsSound {k = k}) (modify (λ w. record w { node_cache = [] }))
  emptied-Keeps = Keeps-modify _ (λ w s. with_cache w [] s (omega arith) tt)

  pub node_destroy_from-Keeps : (fuel i : ℕ) → Keeps (IsSound {k = k}) (node_destroy_from fuel i)
  unfolding node_destroy_from
  node_destroy_from-Keeps zero i = Keeps-return tt
  node_destroy_from-Keeps (suc fuel) i = Keeps-bind _ _ (Keeps-gets _) λ cache.
      Keeps-option (get_elem? cache i) _ _ (Keeps-return tt) (λ (item : NodeItem) e.
        Keeps-then _ _ (destroy_node-Keeps item.inf) (node_destroy_from-Keeps fuel (i + 1)))

  pub node_destroy_all-Keeps : Keeps (IsSound {k = k}) node_destroy_all
  unfolding node_destroy_all
  node_destroy_all-Keeps = search (keeps_rules, node_destroy_from-Keeps, emptied-Keeps) depth 14
