-- ===== src/Invariant/Connections.antt =====
-- src/apbridge.c: connections that are made and ended.
use cc1352_firmware.Prelude.{ℕ, ◌≡◌, ◌∙◌, List, some, arith, length, length-set, get_elem?}
use cc1352_firmware.Prelude.Int.{is_negative}
use cc1352_firmware.System.Kernel.{Kernel}
use cc1352_firmware.System.World.{IntfPtr, NodeApItem, return, modify, gets, in_array}
use cc1352_firmware.System.Keeps.{
  Keeps, Keeps-in_array, Keeps-bind, Keeps-then, Keeps-if, Keeps-gets, Keeps-option, Keeps-return,
  Keeps-modify, Gives, Gives-gets, Gives-bind, keeps_rules,
}
use cc1352_firmware.Node.Cache.{node_cache_find_by_id}
use cc1352_firmware.Svc.Requests.{interface_id}
use cc1352_firmware.Bridge.Table
use cc1352_firmware.Bridge.Table.{ap_max_nodes, empty_item}
use cc1352_firmware.Bridge.Connect.{
  Ends, ends, node_find_by_id, gb_interface_find_by_id, create_connection, destroy_connection,
  node_ap_add, node_ap_remove, connect, connection_create, disconnect, connection_destroy,
}
use cc1352_firmware.Invariant.{IsSound}
use cc1352_firmware.Invariant.Joining.{node_intf_create_connection-Keeps}
use cc1352_firmware.Invariant.Requests.{
  svc_interface-Keeps, svc_inf_create_connection-Keeps, svc_inf_destroy_connection-Keeps,
  interface_id-Keeps,
}

length-node_ap_add :
    (map : List NodeApItem) (ap_cport node_cport : ℕ) (intf : IntfPtr) (id : ℕ)
    → length (Table.node_ap_add map ap_cport node_cport intf id).1 ≡ length map
unfolding Table.node_ap_add
length-node_ap_add map ap_cport node_cport intf id = ground (
  arith,
  length-set map ap_cport (record { node_intf = some intf; node_cport = node_cport; node_id = id }),
)

length-node_ap_remove :
    (map : List NodeApItem) (ap_cport : ℕ)
    → length (Table.node_ap_remove map ap_cport).1 ≡ length map
unfolding Table.node_ap_remove
length-node_ap_remove map ap_cport = ground (arith, length-set map ap_cport empty_item)

abbrev IsTable : List NodeApItem → Type 0
IsTable map = length map ≡ ap_max_nodes

module _ {k : Kernel} where
  pub table-Keeps :
      (map : List NodeApItem)
      → IsTable map
      → Keeps (IsSound {k = k}) (modify (λ w. record w { node_ap_map = map }))
  table-Keeps map h = Keeps-modify _ λ w s. record {
    table = h;
    operation_ids = s.operation_ids;
    interface_ids = s.interface_ids;
    interfaces = s.interfaces;
    cache = s.cache;
    cached = s.cached;
    driver = s.driver;
    line = s.line;
  }

  IsTable-Given : Gives (IsSound {k = k}) IsTable (gets (λ w. w.node_ap_map))
  IsTable-Given = Gives-gets _ _ (λ w s. s.table)

  added-Keeps :
      (map : List NodeApItem) (ap_cport node_cport : ℕ) (intf : IntfPtr) (id : ℕ)
      → IsTable map
      → Keeps (IsSound {k = k}) (
          modify
            (λ w. record w { node_ap_map = (Table.node_ap_add map ap_cport node_cport intf id).1 }))
  added-Keeps map ap_cport node_cport intf id h =
      table-Keeps _ (length-node_ap_add map ap_cport node_cport intf id ∙ h)

  removed-Keeps :
      (map : List NodeApItem) (ap_cport : ℕ)
      → IsTable map
      → Keeps
          (IsSound {k = k})
          (modify (λ w. record w { node_ap_map = (Table.node_ap_remove map ap_cport).1 }))
  removed-Keeps map ap_cport h = table-Keeps _ (length-node_ap_remove map ap_cport ∙ h)

  node_find_by_id-Keeps : (id : ℕ) → Keeps (IsSound {k = k}) (node_find_by_id id)
  unfolding node_find_by_id
  node_find_by_id-Keeps id = Keeps-bind _ _ (Keeps-gets _) λ cache.
      Keeps-option (node_cache_find_by_id cache id) _ _ (Keeps-return _) (λ at e.
        Keeps-bind (in_array (get_elem? cache at)) _ (Keeps-in_array _) (λ item. Keeps-return _))

  pub gb_interface_find_by_id-Keeps :
      (intf_id : ℕ) → Keeps (IsSound {k = k}) (gb_interface_find_by_id intf_id)
  unfolding gb_interface_find_by_id
  gb_interface_find_by_id-Keeps intf_id =
      search (keeps_rules, svc_interface-Keeps, node_find_by_id-Keeps)

  create_connection-Keeps :
      (intf : IntfPtr) (cport : ℕ) → Keeps (IsSound {k = k}) (create_connection intf cport)
  unfolding create_connection
  create_connection-Keeps IntfPtr.svc_intf cport = svc_inf_create_connection-Keeps cport
  create_connection-Keeps IntfPtr.local_intf cport = Keeps-return _
  create_connection-Keeps (IntfPtr.node_intf p) cport = node_intf_create_connection-Keeps p cport

  destroy_connection-Keeps :
      (intf : IntfPtr) (cport : ℕ) → Keeps (IsSound {k = k}) (destroy_connection intf cport)
  unfolding destroy_connection
  destroy_connection-Keeps IntfPtr.svc_intf cport = svc_inf_destroy_connection-Keeps cport
  destroy_connection-Keeps _ cport = Keeps-return _

  node_ap_add-Keeps :
      (ap_cport node_cport : ℕ) (intf : IntfPtr)
      → Keeps (IsSound {k = k}) (node_ap_add ap_cport node_cport intf)
  unfolding node_ap_add
  node_ap_add-Keeps ap_cport node_cport intf = Gives-bind IsTable _ _ IsTable-Given λ map h.
      Keeps-option (Table.refusal map ap_cport) _ return
        (Keeps-bind (interface_id intf) _ (interface_id-Keeps intf) λ id.
          let added = Table.node_ap_add map ap_cport node_cport intf id in
          Keeps-then (modify (λ w. record w { node_ap_map = added.1 })) (return added.0)
            (added-Keeps map ap_cport node_cport intf id h) (Keeps-return _))
        (λ error e. Keeps-return error)

  node_ap_remove-Keeps : (ap_cport : ℕ) → Keeps (IsSound {k = k}) (node_ap_remove ap_cport)
  unfolding node_ap_remove
  node_ap_remove-Keeps ap_cport =
      search (Gives-bind IsTable, IsTable-Given, removed-Keeps, Keeps-return, Keeps-then) depth 8

  connect-Keeps : (e : Ends) → Keeps (IsSound {k = k}) (connect e)
  unfolding connect
  connect-Keeps e = Keeps-bind _ _ (gb_interface_find_by_id-Keeps e.node_id) λ intf.
      Keeps-option intf _ _ (Keeps-return _) λ i there.
        Keeps-bind (create_connection i e.node_cport) _ (create_connection-Keeps i e.node_cport)
          λ ret. Keeps-if (is_negative ret) _ _ (Keeps-return ret) (
            Keeps-bind (node_ap_add e.ap_cport e.node_cport i) _
              (node_ap_add-Keeps e.ap_cport e.node_cport i) λ added. Keeps-return _)

  pub connection_create-Keeps :
      (intf1_id intf1_cport intf2_id intf2_cport : ℕ)
      → Keeps (IsSound {k = k}) (connection_create intf1_id intf1_cport intf2_id intf2_cport)
  unfolding connection_create
  connection_create-Keeps intf1_id intf1_cport intf2_id intf2_cport =
      Keeps-option (ends intf1_id intf1_cport intf2_id intf2_cport) _ _ (Keeps-return _)
        (λ e there. connect-Keeps e)

  disconnect-Keeps : (e : Ends) → Keeps (IsSound {k = k}) (disconnect e)
  unfolding disconnect
  disconnect-Keeps e = Keeps-bind _ _ (gb_interface_find_by_id-Keeps e.node_id) λ intf.
      Keeps-then _ _
        (Keeps-option intf _ _ (Keeps-return _)
          (λ i there. destroy_connection-Keeps i e.node_cport))
        (Keeps-then _ _ (node_ap_remove-Keeps e.ap_cport) (Keeps-return _))

  pub connection_destroy-Keeps :
      (intf1_id intf1_cport intf2_id intf2_cport : ℕ)
      → Keeps (IsSound {k = k}) (connection_destroy intf1_id intf1_cport intf2_id intf2_cport)
  unfolding connection_destroy
  connection_destroy-Keeps intf1_id intf1_cport intf2_id intf2_cport =
      Keeps-option (ends intf1_id intf1_cport intf2_id intf2_cport) _ _ (Keeps-return _)
        (λ e there. disconnect-Keeps e)
