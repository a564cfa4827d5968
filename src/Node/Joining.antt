-- ===== src/Node/Joining.antt =====
-- src/node.c: a node that joins leaves the others as they were.
use cc1352_firmware.Prelude.{
  ℕ, zero, suc, ◌+◌, ◌%◌, ◌<◌, ◌≡◌, ◌≢◌, ◌⊎◌, inl, inr, refl, sym, ap, ◌∙◌, Bool-cases,
  Option-cases, ==_refl, ◌==◌, leb, if◌then◌else◌, List, [], ◌∷◌, ◌++◌, Option, none, some, arith,
  length, length-append, get_elem?, Bytes,
}
use mathlib.Core.Path.{subst}
use cc1352_firmware.Prelude.Int.{minus_one}
use cc1352_firmware.Prelude.Assoc.{lookup_here, lookup_past}
use cc1352_firmware.System.Kernel.{Kernel}
use cc1352_firmware.System.World.{World, NodeInterface, NodeItem, done}
use cc1352_firmware.Greybus.Interface.{interface_id_start, new_interface_id, gb_interface_alloc}
use cc1352_firmware.Node.Cache.{max_greybus_nodes, node_cache_add}
use cc1352_firmware.Node.Destroy.{ctrl_data_free}
use cc1352_firmware.Node.Connect.{ctrl_data_alloc, cache_interface, node_create_interface}
use cc1352_firmware.Node.Removal.{same_element}
use cc1352_firmware.Node.Consistency.{
  SlabUse, Interfaces, Blocks, IsBacked, AreApart, Agree, IsConsistent,
}
use cc1352_firmware.Node.Allocating.{
  not_live, live_ne, interface-Agree, block-Agree, block_back-Agree,
}

-- an element of a list with one more at its end is of the list, or the new one
get_elem?-append_one :
    {A : Type 0} (xs : List A) (v : A) (i : ℕ) (a : A)
    → get_elem? (xs ++ v ∷ []) i ≡ some a
    → (get_elem? xs i ≡ some a) ⊎ ((i ≡ length xs) × (v ≡ a))
get_elem?-append_one [] v zero a h = inr (refl, cc)
get_elem?-append_one [] v (suc i) a h = absurd (cc)
get_elem?-append_one (x ∷ xs) v zero a h = inl h
get_elem?-append_one (x ∷ xs) v (suc i) a h = elim (get_elem?-append_one xs v i a h) [
  | inl old ↦ inl old
  | inr (e, f) ↦ inr (ap suc e, f)
]

AreApart-sym : {intfs : Interfaces} {a b : NodeItem} → AreApart intfs a b → AreApart intfs b a
AreApart-sym away = record {
  inf = λ e. away.inf (sym e);
  id = λ e. away.id (sym e);
  ctrl = λ x y fx fy e. away.ctrl y x fy fx (sym e);
}

module _ {k : Kernel} (u : SlabUse k) where
  -- one more item, which is backed and apart from the others
  item-Agree :
      {si sc : k.Slab} {intfs : Interfaces} {ctrls : Blocks} {cache : List NodeItem}
      (new : NodeItem)
      → Agree u si sc intfs ctrls cache
      → IsBacked intfs ctrls new
      → ((i : ℕ) (a : NodeItem) → get_elem? cache i ≡ some a → AreApart intfs a new)
      → length cache < max_greybus_nodes
      → Agree u si sc intfs ctrls (cache ++ new ∷ [])
  item-Agree {intfs = intfs} {cache = cache} new g b apart room = record {
    backed = λ i item h. elim (get_elem?-append_one cache new i item h) [
      | inl old ↦ g.backed i item old
      | inr (e, f) ↦ subst (IsBacked intfs _) f b
    ];
    apart = λ i j x y hx hy ne. elim (get_elem?-append_one cache new i x hx) [
      | inl old ↦ elim (get_elem?-append_one cache new j y hy) [
        | inl old' ↦ g.apart i j x y old old' ne
        | inr (e, f) ↦ subst (AreApart intfs x) f (apart i x old)
      ]
      | inr (e, f) ↦ elim (get_elem?-append_one cache new j y hy) [
        | inl old' ↦ AreApart-sym (subst (AreApart intfs y) f (apart j y old'))
        | inr (e', f') ↦ absurd (ne (e ∙ sym e'))
      ]
    ];
    intf_used = g.intf_used;
    ctrl_used = g.ctrl_used;
    simple_intfs = g.simple_intfs;
    simple_ctrls = g.simple_ctrls;
    bounded = omega (arith, room, length-append cache (new ∷ []));
  }

  new_apart :
      (addr : Bytes) (w : World k) (c p : ℕ) (sc si : k.Slab)
      → IsConsistent u w
      → ((i : ℕ) (a : NodeItem)
          → get_elem? w.node_cache i ≡ some a
          → a.id ≢ w.interface_id_counter % 256)
      → k.k_mem_slab_alloc w.node_control_data_slab ≡ some (c, sc)
      → k.k_mem_slab_alloc w.gb_interface_slab ≡ some (p, si)
      → (i : ℕ) (a : NodeItem) → get_elem? w.node_cache i ≡ some a
      → let id = w.interface_id_counter % 256 in
        AreApart
          ((p, record { id = id; ctrl_data = c }) ∷ w.interfaces)
          a
          (record { sock = minus_one; id = id; addr = addr; inf = p; fail_count = 0 })
  new_apart addr w c p sc si g fresh e e' i a h =
      let x : NodeInterface = record { id = w.interface_id_counter % 256; ctrl_data = c } in
      let b = g.backed i a h in
      let no_intf =
        not_live w.interfaces (u.InUse w.gb_interface_slab) p g.intf_used
          (u.alloc_fresh w.gb_interface_slab si p e') in
      let no_block =
        not_live w.node_control_data (u.InUse w.node_control_data_slab) c g.ctrl_used
          (u.alloc_fresh w.node_control_data_slab sc c e) in
      let ne = live_ne p a.inf b.intf w.interfaces no_intf b.found in
      record {
        inf = λ f. ne (sym f);
        id = fresh i a h;
        ctrl = λ y z fy fz f.
            let y_is : some b.intf ≡ some y =
              sym (lookup_past a.inf p x w.interfaces ne ∙ b.found) ∙ fy in
            let z_is : some x ≡ some z = sym (lookup_here p x w.interfaces) ∙ fz in
            live_ne c b.intf.ctrl_data a.sock w.node_control_data no_block b.block (
              sym (
                ap NodeInterface.ctrl_data (same_element y_is)
                ∙ f
                ∙ sym (ap NodeInterface.ctrl_data (same_element z_is))));
      }

  -- What `node_create_interface` does where both slabs have room
  created-Consistent :
      (addr : Bytes) (w : World k) (c p : ℕ) (sc si : k.Slab)
      → IsConsistent u w
      → ((i : ℕ) (a : NodeItem)
          → get_elem? w.node_cache i ≡ some a
          → a.id ≢ w.interface_id_counter % 256)
      → k.k_mem_slab_alloc w.node_control_data_slab ≡ some (c, sc)
      → k.k_mem_slab_alloc w.gb_interface_slab ≡ some (p, si)
      → (r : Option ℕ) × (w' : World k) × (node_create_interface addr w ≡ done r w')
        × IsConsistent u w'
  unfolding node_create_interface ctrl_data_alloc gb_interface_alloc ctrl_data_free new_interface_id
      cache_interface node_cache_add
  created-Consistent addr w c p sc si g fresh e e' =
      let id = w.interface_id_counter % 256 in
      let counter =
        if w.interface_id_counter == 255 then interface_id_start else w.interface_id_counter + 1 in
      let x : NodeInterface = record { id = id; ctrl_data = c } in
      elim (Bool-cases (leb max_greybus_nodes (length w.node_cache))) [
        | inl full ↦ (
          none,
          record w {
            gb_interface_slab = si;
            node_control_data_slab = k.k_mem_slab_free sc c;
            interface_id_counter = counter;
            interfaces = (p, x) ∷ w.interfaces;
          },
          ground (arith, e, e', ==_refl c, ==_refl p, full),
          interface-Agree u p x (block_back-Agree u c g e) e',
        )
        | inr room ↦
            let new : NodeItem = record {
              sock = minus_one;
              id = id;
              addr = addr;
              inf = p;
              fail_count = 0;
            } in
            (
              some p,
              record w {
                gb_interface_slab = si;
                node_control_data_slab = sc;
                interface_id_counter = counter;
                interfaces = (p, x) ∷ w.interfaces;
                node_control_data = (c, minus_one) ∷ w.node_control_data;
                node_cache = w.node_cache ++ new ∷ [];
              },
              ground (arith, e, e', ==_refl p, room),
              item-Agree new (interface-Agree u p x (block-Agree u c minus_one g e) e')
                  (record {
                    intf = x;
                    found = lookup_here p x w.interfaces;
                    same_id = refl;
                    block = lookup_here c minus_one w.node_control_data;
                  })
                  (new_apart addr w c p sc si g fresh e e') (ground (arith, room)),
            )
      ]

  -- Where the slabs are used as documented, in a state in which cache, interfaces and control
  -- blocks agree, and no node has the id that the counter gives next: creating a node ends without
  -- a fault in such a state, whether it finds room or not.
  pub node_create_interface-Consistent :
      (addr : Bytes) (w : World k)
      → IsConsistent u w
      → ((i : ℕ) (a : NodeItem)
          → get_elem? w.node_cache i ≡ some a
          → a.id ≢ w.interface_id_counter % 256)
      → (p : Option ℕ) × (w' : World k) × (node_create_interface addr w ≡ done p w')
        × IsConsistent u w'
  unfolding node_create_interface ctrl_data_alloc gb_interface_alloc ctrl_data_free new_interface_id
      cache_interface node_cache_add
  node_create_interface-Consistent addr w g fresh =
      elim (Option-cases (k.k_mem_slab_alloc w.node_control_data_slab)) [
        | inl no_block ↦ (none, w, ground (arith, no_block), g)
        | inr ((c, sc), e) ↦ elim (Option-cases (k.k_mem_slab_alloc w.gb_interface_slab)) [
          | inl no_interface ↦ (
            none,
            record w { node_control_data_slab = k.k_mem_slab_free sc c },
            ground (arith, e, no_interface, ==_refl c),
            block_back-Agree u c g e,
          )
          | inr ((p, si), e') ↦ created-Consistent addr w c p sc si g fresh e e'
        ]
      ]
