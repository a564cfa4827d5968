-- ===== src/Bridge/Routing.antt =====
-- src/apbridge.c: what is connected is found again, in both directions.
use cc1352_firmware.Prelude.{
  ℕ, zero, suc, ◌+◌, ◌≤◌, ◌<◌, ◌≡◌, ◌≢◌, ◌⊎◌, refl, ap, ◌∙◌, [], ◌∷◌, List, none, some, arith,
  length, get_elem?, set, get_elem?-set_self, get_elem?-set_ne, get_elem?-some_lt, get_elem?_ge,
  leb, if◌then◌else◌, inl, inr,
}
use cc1352_firmware.Prelude.Int.{pos, minus_einval, minus_e2big, minus_ealready}
use cc1352_firmware.System.Kernel.{Kernel}
use cc1352_firmware.System.World.{World, IntfPtr, NodeApItem, fault, null_pointer, out_of_bounds}
use cc1352_firmware.Greybus.Message.{Message}
use cc1352_firmware.Bridge.Table.{
  ap_max_nodes, node_ap_add, node_to_ap_cport_from, node_to_ap_cport,
}
use cc1352_firmware.Bridge.Send.{WriteCallback, connection_send}

-- the item of a connection
abbrev pub item_of : ℕ → ℕ → IntfPtr → NodeApItem
item_of id cport intf = record { node_intf = some intf; node_cport = cport; node_id = id }

node_to_ap_cport_from-set :
    (map : List NodeApItem) (i at id cport : ℕ) (intf : IntfPtr)
    → at < length map
    → node_to_ap_cport_from map i id cport ≡ minus_einval
    → node_to_ap_cport_from (set map at (item_of id cport intf)) i id cport ≡ pos (i + at)
unfolding node_to_ap_cport_from
node_to_ap_cport_from-set [] i at id cport intf h e = absurd (omega arith)
node_to_ap_cport_from-set (x ∷ map) i zero id cport intf h e = ground arith
node_to_ap_cport_from-set (x ∷ map) i (suc at) id cport intf h e =
    ground (arith, node_to_ap_cport_from-set map (i + 1) at id cport intf)

pub node_ap_add_free :
    (map : List NodeApItem) (ap_cport node_cport id : ℕ) (intf : IntfPtr) (item : NodeApItem)
    → ap_cport < ap_max_nodes
    → get_elem? map ap_cport ≡ some item
    → item.node_intf ≡ none
    → node_ap_add map ap_cport node_cport intf id
      ≡ (pos 0, set map ap_cport (item_of id node_cport intf))
unfolding node_ap_add
node_ap_add_free map ap_cport node_cport id intf item h at free = ground arith

-- A connection of a free cport of the AP with a cport that is not connected yet succeeds and is
-- found in both directions, and no other item of the table changes.
node_ap_add-found :
    (map : List NodeApItem) (ap_cport node_cport id : ℕ) (intf : IntfPtr) (item : NodeApItem)
    → length map ≡ ap_max_nodes
    → get_elem? map ap_cport ≡ some item
    → item.node_intf ≡ none
    → node_to_ap_cport map id node_cport ≡ minus_einval
    → let added = node_ap_add map ap_cport node_cport intf id in
      (added.0 ≡ pos 0)
      × (get_elem? added.1 ap_cport ≡ some (item_of id node_cport intf))
      × (node_to_ap_cport added.1 id node_cport ≡ pos ap_cport)
      × ((other : ℕ) → ap_cport ≢ other → get_elem? added.1 other ≡ get_elem? map other)
unfolding node_to_ap_cport
node_ap_add-found map ap_cport node_cport id intf item size at free new =
    let inside = get_elem?-some_lt map ap_cport at in
    rw (node_ap_add_free map ap_cport node_cport id intf item (omega arith) at free) (
      refl,
      get_elem?-set_self map ap_cport _ inside,
      node_to_ap_cport_from-set map 0 ap_cport id node_cport intf inside new ∙ ap pos (omega arith),
      λ other ne. get_elem?-set_ne map _ ne,
    )

-- A cport of the AP that is in use, or out of range, is refused with -E2BIG or -EALREADY, and the
-- table stays as it is.
node_ap_add_refused :
    (map : List NodeApItem) (ap_cport node_cport id : ℕ) (intf : IntfPtr)
    → length map ≡ ap_max_nodes
    → (ap_max_nodes ≤ ap_cport)
      ⊎ ((item : NodeApItem) × (old : IntfPtr) × (get_elem? map ap_cport ≡ some item)
          × (item.node_intf ≡ some old))
    → let added = node_ap_add map ap_cport node_cport intf id in
      (added.1 ≡ map) × ((added.0 ≡ minus_e2big) ⊎ (added.0 ≡ minus_ealready))
unfolding node_ap_add
node_ap_add_refused map ap_cport node_cport id intf size h = ground arith

module _ {k : Kernel} (write : WriteCallback k) where
  -- A message of the AP on a connected cport goes to the callback of the interface that the cport
  -- is connected to, with the cport of that side.
  pub connection_send_connected :
      (cport : ℕ) (msg : Message) (w : World k) (item : NodeApItem) (intf : IntfPtr)
      → get_elem? w.node_ap_map cport ≡ some item
      → item.node_intf ≡ some intf
      → connection_send write 1 cport msg w ≡ write intf msg item.node_cport w
  unfolding connection_send
  connection_send_connected cport msg w item intf at e = ground arith

  -- A message of the AP to a cport that is not connected faults: in the table the code calls through
  -- a null pointer, and past the table it reads out of bounds, since the cport, which the AP chooses
  -- freely, is not tested.
  pub connection_send_unconnected :
      (cport : ℕ) (msg : Message) (w : World k)
      → length w.node_ap_map ≡ ap_max_nodes
      → (ap_max_nodes ≤ cport)
        ⊎ ((item : NodeApItem) × (get_elem? w.node_ap_map cport ≡ some item)
            × (item.node_intf ≡ none))
      → connection_send write 1 cport msg w
        ≡ fault (if leb ap_max_nodes cport then out_of_bounds else null_pointer)
  unfolding connection_send
  connection_send_unconnected cport msg w size (inl h) =
      rw (get_elem?_ge w.node_ap_map cport (omega arith)) (ground arith)
  connection_send_unconnected cport msg w size (inr (item, at, e)) =
      let inside = get_elem?-some_lt w.node_ap_map cport at in ground arith
