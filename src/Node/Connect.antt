-- ===== src/Node/Connect.antt =====
-- src/node.c: new nodes, and the connection of a node's first cport.
use cc1352_firmware.Prelude.{
  ℕ, List, [], ◌∷◌, Option, none, some, ◌==◌, if◌then◌else◌, get_elem?, set, Bytes,
}
use cc1352_firmware.Prelude.Int.{is_zero, ℤ, pos, is_negative, minus_one, minus_einval}
use cc1352_firmware.Prelude.Assoc.{lookup, update}
use cc1352_firmware.System.Kernel.{Family, SockAddr, Kernel}
use cc1352_firmware.System.World.{
  NodeInterface, NodeItem, done, M, ◌>>=◌, ◌>>◌, return, gets, modify, live, in_array,
}
use cc1352_firmware.Greybus.Interface.{gb_interface_alloc}
use cc1352_firmware.Node.Cache.{node_cache_find_by_id, node_cache_add}
use cc1352_firmware.Node.Destroy.{ctrl_data_free}

-- GB_TRANSPORT_TCPIP_BASE_PORT
abbrev gb_transport_tcpip_base_port : ℕ
gb_transport_tcpip_base_port = 4242

-- `node_addr`, the address that `node_intf_create_connection` connects to
abbrev pub node_addr : Bytes → SockAddr
node_addr addr = record {
  family = Family.af_inet6;
  port = gb_transport_tcpip_base_port;
  addr = addr;
}

module _ {k : Kernel} where
  -- `pipe_send` writes one zero byte; an error is only logged.
  unfoldable pub pipe_send : M k (Unit {0})
  pipe_send = modify (λ w. record w { net = (k.zsock_send w.net w.local_pipe_writer (0 ∷ [])).1 })

  -- The socket is of the family of the address, whose size follows from it.
  unfoldable pub connect_to_node : SockAddr → M k ℤ
  connect_to_node addr w =
      let (sock, n) = k.zsock_socket w.net addr.family in
      if is_negative sock
      then done sock (record w { net = n })
      else (let (ret, n') = k.zsock_connect n sock addr in
          if is_zero ret
          then done sock (record w { net = n' })
          else done ret (record w { net = k.zsock_close n' sock }))

  -- the end of `node_intf_create_connection`, behind the search for the node
  unfoldable pub open_found : ℕ → List NodeItem → Option ℕ → M k ℤ
  open_found ctrl cache none = return minus_einval
  open_found ctrl cache (some at) = do
    item ← in_array (get_elem? cache at)
    sock ← connect_to_node (node_addr (NodeItem.addr item))
    if is_negative sock then return sock else (do
      modify (λ w. record w {
        node_cache = set w.node_cache at (record item { sock = sock });
        node_control_data = update ctrl sock w.node_control_data;
      })
      pipe_send
      return sock)

  -- the part behind the two early returns of `node_intf_create_connection`
  unfoldable pub open_node : ℕ → ℕ → M k ℤ
  unfolding open_found
  open_node id ctrl = do
    cache ← gets (λ w. w.node_cache)
    open_found ctrl cache (node_cache_find_by_id cache id)

  unfoldable pub node_intf_create_connection : ℕ → ℕ → M k ℤ
  node_intf_create_connection p cport_id =
      if cport_id == 0
      then (do
        intfs ← gets (λ w. w.interfaces)
        intf ← live (lookup p intfs)
        ctrls ← gets (λ w. w.node_control_data)
        sock ← live (lookup (NodeInterface.ctrl_data intf) ctrls)
        if is_negative sock
            then open_node (NodeInterface.id intf) (NodeInterface.ctrl_data intf)
            else return sock)
      else return (pos 0)

  -- the control block of a new node, with no socket yet
  unfoldable pub ctrl_data_alloc : M k (Option ℕ)
  ctrl_data_alloc w = elim (k.k_mem_slab_alloc w.node_control_data_slab) [
    | none ↦ done none w
    | some (c, s) ↦ done (some c) (record w {
      node_control_data_slab = s;
      node_control_data = (c, minus_one) ∷ w.node_control_data;
    })
  ]

  -- the end of `node_create_interface`, with the cache that `node_cache_add` leaves: where it was
  -- full the control block is freed, and the interface is not.
  unfoldable pub keep_interface : ℕ → ℕ → Option (List NodeItem) → M k (Option ℕ)
  keep_interface ctrl p none = do ctrl_data_free ctrl; return none
  keep_interface ctrl p (some cache) = do
    modify (λ w. record w { node_cache = cache })
    return (some p)

  -- the part of `node_create_interface` behind `gb_interface_alloc`
  unfoldable pub cache_interface : Bytes → ℕ → ℕ → M k (Option ℕ)
  unfolding keep_interface
  cache_interface addr ctrl p = do
    intfs ← gets (λ w. w.interfaces)
    intf ← live (lookup p intfs)
    cache ← gets (λ w. w.node_cache)
    keep_interface ctrl p (node_cache_add cache minus_one (NodeInterface.id intf) addr p)

  unfoldable pub node_create_interface : Bytes → M k (Option ℕ)
  node_create_interface addr = do
    ctrl ← ctrl_data_alloc
    elim ctrl [
      | none ↦ return none
      | some c ↦ (do
        inf ← gb_interface_alloc c
        elim inf [ none ↦ (do ctrl_data_free c; return none) | some p ↦ cache_interface addr c p ])
    ]
