-- ===== src/Node/Life.antt =====
-- src/node.c: nodes that come, are connected and go in any order.
use mathlib.Core.Path.{subst}
use cc1352_firmware.Prelude.{ℕ, ◌%◌, ◌≡◌, ◌≢◌, refl, sym, ap, ◌∙◌, some, get_elem?, Bytes}
use cc1352_firmware.System.Kernel.{Kernel}
use cc1352_firmware.System.World.{World, NodeItem, Outcome, done, fault, M, ◌>>◌, return}
use cc1352_firmware.Node.Destroy.{destroy_node}
use cc1352_firmware.Node.Connect.{node_intf_create_connection, node_create_interface}
use cc1352_firmware.Node.Consistency.{SlabUse, IsConsistent}
use cc1352_firmware.Node.Leaving.{destroy_node-Consistent}
use cc1352_firmware.Node.Joining.{node_create_interface-Consistent}
use cc1352_firmware.Node.Opening.{node_intf_create_connection-Consistent}

-- No node has the id that the counter gives next.
abbrev pub IsFresh : {k : Kernel} → World k → Type 0
IsFresh w =
    (i : ℕ) (a : NodeItem) → get_elem? w.node_cache i ≡ some a → a.id ≢ w.interface_id_counter % 256

-- A call: for a new node at an address, or for the node with this interface.
pub data Call : Type 0 where
  create : Bytes → Call
  connect : ℕ → ℕ → Call
  destroy : ℕ → Call

module _ {k : Kernel} where
  abbrev pub perform : Call → M k (Unit {0})
  perform (Call.create addr) = do node_create_interface addr; return tt
  perform (Call.connect p cport) = do node_intf_create_connection p cport; return tt
  perform (Call.destroy p) = destroy_node p

  -- a node of the cache has this interface
  abbrev pub IsCached : World k → ℕ → Type 0
  IsCached w p =
      (i : ℕ) × (item : NodeItem) × (get_elem? w.node_cache i ≡ some item) × (item.inf ≡ p)

  abbrev pub IsAllowed : World k → Call → Type 0
  IsAllowed w (Call.create addr) = IsFresh w
  IsAllowed w (Call.connect p cport) = IsCached w p
  IsAllowed w (Call.destroy p) = IsCached w p

  -- the states that calls lead to
  pub data Life (start : World k) : World k → Type 0 where
    begin : Life start start
    call :
        {w w' : World k} (c : Call)
        → IsAllowed w c
        → perform c w ≡ done tt w'
        → Life start w
        → Life start w'

  perform-Consistent :
      (u : SlabUse k) (c : Call) (w : World k)
      → IsConsistent u w
      → IsAllowed w c
      → (w' : World k) × (perform c w ≡ done tt w') × IsConsistent u w'
  perform-Consistent u (Call.create addr) w g fresh =
      let (p, w', e, g') = node_create_interface-Consistent u addr w g fresh in
      (w', rw (◌>>◌, e) refl, g')
  perform-Consistent u (Call.connect p cport) w g (i, item, h, e) =
      let (ret, w', f, g') = node_intf_create_connection-Consistent u i item cport w g h in
      (w', rw (◌>>◌, sym e, f) refl, g')
  perform-Consistent u (Call.destroy p) w g (i, item, h, e) =
      let (w', block, f, g', _, _, _, _, _, _) = destroy_node-Consistent u i item w g h in
      (w', ap (λ q. destroy_node q w) (sym e) ∙ f, g')

  same_state : {w w' : World k} → done tt w ≡ done tt w' → w ≡ w'
  same_state {w} e = ap (λ (o : Outcome k (Unit {0})). elim o [ done u x ↦ x | fault f ↦ w ]) e

  consistent :
      (u : SlabUse k) {start w : World k} → IsConsistent u start → Life start w → IsConsistent u w
  consistent u g Life.begin = g
  consistent u g (Life.call {w} c allowed e life) =
      let (w', f, g') = perform-Consistent u c w (consistent u g life) allowed in
      subst (IsConsistent u) (same_state (sym f ∙ e)) g'

  pub Life-Consistent :
      (u : SlabUse k) (start w : World k)
      → IsConsistent u start
      → Life start w
      → IsConsistent u w
        × ((c : Call) → IsAllowed w c → (w' : World k) × (perform c w ≡ done tt w'))
  Life-Consistent u start w g life =
      let g' = consistent u g life in
      (g', λ c allowed. let (w', e, g'') = perform-Consistent u c w g' allowed in (w', e))
