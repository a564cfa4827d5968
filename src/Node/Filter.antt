-- ===== src/Node/Filter.antt =====
-- src/node.c: what becomes of the addresses that discovery has found.
use cc1352_firmware.Prelude.{List, [], ◌∷◌, none, some, Bytes}
use cc1352_firmware.System.Kernel.{Kernel}
use cc1352_firmware.System.World.{IntfPtr, M, ◌>>=◌, ◌>>◌, return, gets}
use cc1352_firmware.Svc.Requests.{interface_id, svc_send_module_inserted}
use cc1352_firmware.Node.Cache.{node_cache_find_by_addr}
use cc1352_firmware.Node.Connect.{node_create_interface}

module _ {k : Kernel} where
  -- A new address gets an interface, which is announced to the AP; a failure is passed over.
  unfoldable pub node_filter : List Bytes → M k (Unit {0})
  node_filter [] = return tt
  node_filter (addr ∷ addrs) =
      let rest : M k (Unit {0}) = node_filter addrs in
      do
        cache ← gets (λ w. w.node_cache)
        elim (node_cache_find_by_addr k.net_ipv6_addr_cmp cache addr) [
          | some at ↦ rest
          | none ↦ (do
            inf ← node_create_interface addr
            elim inf [
              | none ↦ rest
              | some p ↦ (do
                id ← interface_id (IntfPtr.node_intf p)
                svc_send_module_inserted id
                rest)
            ])
        ]
