-- ===== src/Bridge/Connect.antt =====
-- src/apbridge.c: connections between a cport of the AP and one of another interface; the search
-- for an interface in src/greybus_interfaces.c and src/node.c; and the callbacks of the three
-- kinds of interfaces that make and end a connection.
use cc1352_firmware.Prelude.{ℕ, Option, none, some, ◌==◌, if◌then◌else◌, get_elem?}
use cc1352_firmware.Prelude.Int.{ℤ, pos, is_negative, minus_einval}
use cc1352_firmware.System.Kernel.{Kernel}
use cc1352_firmware.System.World.{
  IntfPtr, local_intf, NodeItem, M, ◌>>=◌, ◌>>◌, return, gets, modify, in_array,
}
use cc1352_firmware.Greybus.Interface.{svc_inf_id, ap_inf_id, local_node_id}
use cc1352_firmware.Node.Cache.{node_cache_find_by_id}
use cc1352_firmware.Node.Connect.{node_intf_create_connection}
use cc1352_firmware.Svc.State.{svc_interface, svc_inf_create_connection, svc_inf_destroy_connection}
use cc1352_firmware.Svc.Requests.{interface_id}
use cc1352_firmware.Bridge.Table

-- which cport of the AP is to be connected with which of the other side
pub record Ends : Type 0 where
  pub node_id : ℕ
  pub node_cport : ℕ
  pub ap_cport : ℕ

-- the choice at the start of `connection_create` and of `connection_destroy`
unfoldable pub ends : ℕ → ℕ → ℕ → ℕ → Option Ends
ends intf1_id intf1_cport intf2_id intf2_cport =
    if intf1_id == ap_inf_id
    then some (record { node_id = intf2_id; node_cport = intf2_cport; ap_cport = intf1_cport })
    else if intf2_id == ap_inf_id
    then some (record { node_id = intf1_id; node_cport = intf1_cport; ap_cport = intf2_cport })
    else none

module _ {k : Kernel} where
  unfoldable pub node_find_by_id : ℕ → M k (Option IntfPtr)
  node_find_by_id id = do
    cache ← gets (λ w. w.node_cache)
    elim (node_cache_find_by_id cache id) [
      | none ↦ return none
      | some at ↦ (do
        item ← in_array (get_elem? cache at)
        return (some (IntfPtr.node_intf (NodeItem.inf item))))
    ]

  unfoldable pub gb_interface_find_by_id : ℕ → M k (Option IntfPtr)
  gb_interface_find_by_id intf_id =
      if intf_id == svc_inf_id
      then svc_interface
      else if intf_id == local_node_id
      then return (some local_intf)
      else node_find_by_id intf_id

  -- `intf->create_connection(intf, cport)`
  unfoldable pub create_connection : IntfPtr → ℕ → M k ℤ
  create_connection IntfPtr.svc_intf cport = svc_inf_create_connection cport
  create_connection IntfPtr.local_intf cport = return (pos 0)
  create_connection (IntfPtr.node_intf p) cport = node_intf_create_connection p cport

  -- `intf->destroy_connection(intf, cport)`; a node keeps its socket.
  unfoldable pub destroy_connection : IntfPtr → ℕ → M k (Unit {0})
  destroy_connection IntfPtr.svc_intf cport = svc_inf_destroy_connection cport
  destroy_connection _ cport = return tt

  -- `node_ap_add` on the table: the id of the interface is read behind the two tests.
  unfoldable pub node_ap_add : ℕ → ℕ → IntfPtr → M k ℤ
  node_ap_add ap_cport node_cport intf = do
    map ← gets (λ w. w.node_ap_map)
    elim (Table.refusal map ap_cport) [
      | some error ↦ return error
      | none ↦ (do
        id ← interface_id intf
        let added = Table.node_ap_add map ap_cport node_cport intf id
        modify (λ w. record w { node_ap_map = added.1 })
        return added.0)
    ]

  unfoldable pub node_ap_remove : ℕ → M k ℤ
  node_ap_remove ap_cport = do
    map ← gets (λ w. w.node_ap_map)
    let removed = Table.node_ap_remove map ap_cport
    modify (λ w. record w { node_ap_map = removed.1 })
    return removed.0

  -- `connection_create` behind the choice of the ends
  unfoldable pub connect : Ends → M k ℤ
  connect e = do
    intf ← gb_interface_find_by_id e.node_id
    elim intf [
      | none ↦ return minus_einval
      | some i ↦ (do
        ret ← create_connection i e.node_cport
        (if is_negative ret then return ret else (do
          added ← node_ap_add e.ap_cport e.node_cport i
          return (if is_negative added then added else pos 0))))
    ]

  unfoldable pub connection_create : ℕ → ℕ → ℕ → ℕ → M k ℤ
  connection_create intf1_id intf1_cport intf2_id intf2_cport =
      elim (ends intf1_id intf1_cport intf2_id intf2_cport) [
        | none ↦ return minus_einval
        | some e ↦ connect e
      ]

  -- `connection_destroy` behind the choice of the ends: an interface that is gone is ignored.
  unfoldable pub disconnect : Ends → M k ℤ
  disconnect e = do
    intf ← gb_interface_find_by_id e.node_id
    elim intf [ none ↦ return tt | some i ↦ destroy_connection i e.node_cport ]
    node_ap_remove e.ap_cport
    return (pos 0)

  unfoldable pub connection_destroy : ℕ → ℕ → ℕ → ℕ → M k ℤ
  connection_destroy intf1_id intf1_cport intf2_id intf2_cport =
      elim (ends intf1_id intf1_cport intf2_id intf2_cport) [
        | none ↦ return minus_einval
        | some e ↦ disconnect e
      ]
