-- ===== src/Node/Consistency.antt =====
-- src/node.c: the cache of nodes, their interfaces and their control blocks agree with each other.
use cc1352_firmware.Prelude.{ℕ, ◌≤◌, ◌≡◌, ◌≢◌, List, some, length, get_elem?}
use cc1352_firmware.Prelude.Int.{ℤ}
use cc1352_firmware.Prelude.Assoc.{lookup, IsSimple}
use cc1352_firmware.System.Kernel.{Kernel}
use cc1352_firmware.System.World.{World, NodeInterface, NodeItem}
use cc1352_firmware.Node.Cache.{max_greybus_nodes}

-- What the kernel documents of a slab: it hands out a block that is not in use, which then is, and
-- giving one back leaves the others in use.
pub record SlabUse (k : Kernel) : Type 1 where
  pub InUse : k.Slab → ℕ → Type 0
  pub alloc_fresh : (s s' : k.Slab) (p : ℕ) → k.k_mem_slab_alloc s ≡ some (p, s') → ¬ InUse s p
  pub alloc_used : (s s' : k.Slab) (p : ℕ) → k.k_mem_slab_alloc s ≡ some (p, s') → InUse s' p
  pub alloc_keeps :
      (s s' : k.Slab) (p q : ℕ) → k.k_mem_slab_alloc s ≡ some (p, s') → InUse s q → InUse s' q
  pub free_keeps : (s : k.Slab) (p q : ℕ) → p ≢ q → InUse s q → InUse (k.k_mem_slab_free s p) q

abbrev pub Interfaces : Type 0
Interfaces = List (ℕ × NodeInterface)

abbrev pub Blocks : Type 0
Blocks = List (ℕ × ℤ)

-- The interface of the item is live and has its id, and its control block is live and has its
-- socket.
pub record IsBacked (intfs : Interfaces) (ctrls : Blocks) (item : NodeItem) : Type 0 where
  pub intf : NodeInterface
  pub found : lookup item.inf intfs ≡ some intf
  pub same_id : intf.id ≡ item.id
  pub block : lookup intf.ctrl_data ctrls ≡ some item.sock

-- Two items have different interfaces, with different ids and control blocks.
pub record AreApart (intfs : Interfaces) (a b : NodeItem) : Type 0 where
  pub inf : a.inf ≢ b.inf
  pub id : a.id ≢ b.id
  pub ctrl :
      (x y : NodeInterface)
      → lookup a.inf intfs ≡ some x
      → lookup b.inf intfs ≡ some y
      → x.ctrl_data ≢ y.ctrl_data

module _ {k : Kernel} (u : SlabUse k) where
  pub record Agree (si sc : k.Slab) (intfs : Interfaces) (ctrls : Blocks) (cache : List NodeItem)
      : Type 0 where
    pub backed :
        (i : ℕ) (item : NodeItem) → get_elem? cache i ≡ some item → IsBacked intfs ctrls item
    pub apart :
        (i j : ℕ) (a b : NodeItem)
        → get_elem? cache i ≡ some a
        → get_elem? cache j ≡ some b
        → i ≢ j
        → AreApart intfs a b
    pub intf_used : (p : ℕ) (x : NodeInterface) → lookup p intfs ≡ some x → u.InUse si p
    pub ctrl_used : (c : ℕ) (s : ℤ) → lookup c ctrls ≡ some s → u.InUse sc c
    pub simple_intfs : IsSimple intfs
    pub simple_ctrls : IsSimple ctrls
    pub bounded : length cache ≤ max_greybus_nodes

  abbrev pub IsConsistent : World k → Type 0
  IsConsistent w =
      Agree w.gb_interface_slab w.node_control_data_slab w.interfaces w.node_control_data
        w.node_cache
