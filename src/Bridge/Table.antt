-- ===== src/Bridge/Table.antt =====
-- src/apbridge.c: the table `node_ap_map`, one item for each cport of the AP.
use cc1352_firmware.Prelude.{
  ℕ, ◌+◌, ◌&&◌, List, [], ◌∷◌, Option, none, some, leb, ◌==◌, if◌then◌else◌, get_elem?, set,
  replicate,
}
use cc1352_firmware.Prelude.Int.{ℤ, pos, minus_e2big, minus_einval, minus_ealready}
use cc1352_firmware.System.World.{IntfPtr, NodeApItem}

-- AP_MAX_NODES, which is CONFIG_BEAGLEPLAY_GREYBUS_MAX_NODES of prj.conf
abbrev pub ap_max_nodes : ℕ
ap_max_nodes = 32

abbrev pub empty_item : NodeApItem
empty_item = record { node_intf = none; node_cport = 0; node_id = 0 }

-- the two tests at the start of `node_ap_add`, and the error where one of them fails
abbrev pub refusal : List NodeApItem → ℕ → Option ℤ
refusal map ap_cport =
    if leb ap_max_nodes ap_cport then some minus_e2big else elim (get_elem? map ap_cport) [
      | none ↦ some minus_e2big
      | some item ↦ elim item.node_intf [ none ↦ none | some _ ↦ some minus_ealready ]
    ]

-- `node_ap_add`; the id is that of the interface.
unfoldable pub node_ap_add : List NodeApItem → ℕ → ℕ → IntfPtr → ℕ → ℤ × List NodeApItem
node_ap_add map ap_cport node_cport intf id = elim (refusal map ap_cport) [
  | some error ↦ (error, map)
  | none ↦ (
    pos 0,
    set map ap_cport (record { node_intf = some intf; node_cport = node_cport; node_id = id }),
  )
]

unfoldable pub node_ap_remove : List NodeApItem → ℕ → ℤ × List NodeApItem
node_ap_remove map ap_cport =
    if leb ap_max_nodes ap_cport then (minus_e2big, map) else (pos 0, set map ap_cport empty_item)

-- the loop of `node_to_ap_cport` from index `i` on
unfoldable pub node_to_ap_cport_from : List NodeApItem → ℕ → ℕ → ℕ → ℤ
node_to_ap_cport_from [] i node_id node_cport = minus_einval
node_to_ap_cport_from (item ∷ map) i node_id node_cport =
    if item.node_id == node_id && item.node_cport == node_cport
    then pos i
    else node_to_ap_cport_from map (i + 1) node_id node_cport

unfoldable pub node_to_ap_cport : List NodeApItem → ℕ → ℕ → ℤ
unfolding node_to_ap_cport_from
node_to_ap_cport map node_id node_cport = node_to_ap_cport_from map 0 node_id node_cport

-- `apbridge_deinit`
unfoldable pub apbridge_deinit : List NodeApItem → List NodeApItem
apbridge_deinit map = replicate ap_max_nodes empty_item
