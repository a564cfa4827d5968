-- ===== src/Invariant/Joining.antt =====
-- src/node.c: new nodes and their sockets.
use cc1352_firmware.Prelude.{
  ℕ, ◌≤◌, ◌≡◌, List, [], ◌∷◌, refl, Option, none, some, arith, leb, length, length-append,
  length-set, set, get_elem?, All, All-append, Bytes, Bool-cases, inl, inr,
}
use cc1352_firmware.Prelude.Int.{ℤ, is_zero, minus_one, is_negative}
use cc1352_firmware.Prelude.Assoc.{lookup, update}
use cc1352_firmware.Prelude.Every.{All-set, All-get_elem?, All-lookup}
use mathlib.Core.Option.{some-injective}
use cc1352_firmware.System.Kernel.{SockAddr, Kernel}
use cc1352_firmware.System.World.{NodeItem, NodeInterface, modify, live, in_array, gets}
use cc1352_firmware.System.Keeps.{
  After-if, Keeps-if, Keeps-option, Keeps-bind, Keeps-return, Keeps-then, Keeps, Keeps-modify,
  Gives, Gives-bind, Gives-gets, Gives-live, Gives-in_array, keeps_rules,
}
use cc1352_firmware.Node.Cache.{max_greybus_nodes, node_cache_add}
use cc1352_firmware.Node.Connect.{
  node_addr, pipe_send, connect_to_node, open_found, keep_interface, open_node,
  node_intf_create_connection, cache_interface, node_create_interface,
}
use cc1352_firmware.Invariant.{IsSound, IsNodeId, HasNodeId, HasInterfaceId}
use cc1352_firmware.Invariant.Nodes.{
  with_cache, gb_interface_alloc-Keeps, ctrl_data_alloc-Keeps, ctrl_data_free-Keeps,
}

abbrev HasId : NodeInterface → Type 0
HasId intf = IsNodeId intf.id

-- a cache as the invariant wants it
abbrev IsCache : List NodeItem → Type 0
IsCache cache = (length cache ≤ max_greybus_nodes) × All HasNodeId cache

node_cache_add-IsCache :
    (cache : List NodeItem) (sock : ℤ) (id : ℕ) (addr : Bytes) (inf : ℕ) (cache' : List NodeItem)
    → IsCache cache
    → IsNodeId id
    → node_cache_add cache sock id addr inf ≡ some cache'
    → IsCache cache'
unfolding node_cache_add
node_cache_add-IsCache cache sock id addr inf cache' h i e =
    elim (Bool-cases (leb max_greybus_nodes (length cache))) [
      | inl full ↦ absurd (ground (arith, e, full))
      | inr room ↦
          let item : NodeItem = record {
            sock = sock;
            id = id;
            addr = addr;
            inf = inf;
            fail_count = 0;
          } in
          rw (← some-injective _ _ (rw room at e)) (
            ground (arith, room, length-append cache (item ∷ [])),
            All-append HasNodeId cache (item ∷ []) h.1 (i, tt),
          )
    ]

module _ {k : Kernel} where
  IsCache-Given : Gives (IsSound {k = k}) IsCache (gets (λ w. w.node_cache))
  IsCache-Given = Gives-gets _ _ (λ w s. (s.cache, s.cached))

  interfaces-Given : Gives (IsSound {k = k}) (All HasInterfaceId) (gets (λ w. w.interfaces))
  interfaces-Given = Gives-gets _ _ (λ w s. s.interfaces)

  pub pipe_send-Keeps : Keeps (IsSound {k = k}) pipe_send
  unfolding pipe_send
  pipe_send-Keeps = Keeps-modify _ (λ w s. s)

  pub connect_to_node-Keeps : (addr : SockAddr) → Keeps (IsSound {k = k}) (connect_to_node addr)
  unfolding connect_to_node
  connect_to_node-Keeps addr = record {
    kept = λ w s.
        let (sock, n) = k.zsock_socket w.net addr.family in
        let (ret, n') = k.zsock_connect n sock addr in
        After-if IsSound (is_negative sock) _ _ s (After-if IsSound (is_zero ret) _ _ s s);
  }

  opened-Keeps :
      (at ctrl : ℕ) (item : NodeItem) (sock : ℤ)
      → HasNodeId item
      → Keeps (IsSound {k = k}) (
          modify (λ w. record w {
            node_cache = set w.node_cache at (record item { sock = sock });
            node_control_data = update ctrl sock w.node_control_data;
          }))
  opened-Keeps at ctrl item sock h = Keeps-modify _ λ w s.
      with_cache w (set w.node_cache at (record item { sock = sock })) s
        (omega (arith, s.cache, length-set w.node_cache at (record item { sock = sock })))
        (All-set HasNodeId w.node_cache at _ s.cached h)

  open_item-Given :
      (cache : List NodeItem) (at : ℕ)
      → IsCache cache
      → Gives (IsSound {k = k}) HasNodeId (in_array (get_elem? cache at))
  open_item-Given cache at h =
      Gives-in_array _ _ (λ item e. All-get_elem? HasNodeId cache at item h.1 e)

  open_found-Keeps :
      (ctrl : ℕ) (cache : List NodeItem) (found : Option ℕ)
      → IsCache cache
      → Keeps (IsSound {k = k}) (open_found ctrl cache found)
  unfolding open_found
  open_found-Keeps ctrl cache none h = Keeps-return _
  open_found-Keeps ctrl cache (some at) h =
      Gives-bind HasNodeId (in_array (get_elem? cache at)) _ (open_item-Given cache at h) λ item id.
        Keeps-bind (connect_to_node (node_addr item.addr)) _
          (connect_to_node-Keeps (node_addr item.addr))
          λ sock. Keeps-if (is_negative sock) _ _ (Keeps-return sock) (
            Keeps-then _ _ (opened-Keeps at ctrl item sock id)
              (Keeps-then _ _ pipe_send-Keeps (Keeps-return sock)))

  pub open_node-Keeps : (id ctrl : ℕ) → Keeps (IsSound {k = k}) (open_node id ctrl)
  unfolding open_node
  open_node-Keeps id ctrl = search (Gives-bind, IsCache-Given, open_found-Keeps)

  pub node_intf_create_connection-Keeps :
      (p cport_id : ℕ) → Keeps (IsSound {k = k}) (node_intf_create_connection p cport_id)
  unfolding node_intf_create_connection
  node_intf_create_connection-Keeps p cport_id = search (keeps_rules, open_node-Keeps) depth 14

  cached-Keeps :
      (cache : List NodeItem)
      → IsCache cache
      → Keeps (IsSound {k = k}) (modify (λ w. record w { node_cache = cache }))
  cached-Keeps cache h = Keeps-modify _ λ w s. with_cache w cache s h.0 h.1

  interface-Given :
      (p : ℕ) (intfs : List (ℕ × NodeInterface))
      → All HasInterfaceId intfs
      → Gives (IsSound {k = k}) HasId (live (lookup p intfs))
  interface-Given p intfs all =
      Gives-live _ _ (λ intf e. All-lookup HasInterfaceId HasId p intf intfs (λ q b h. h) all e)

  keep_interface-Keeps :
      (ctrl p : ℕ) (added : Option (List NodeItem))
      → ((cache : List NodeItem) → added ≡ some cache → IsCache cache)
      → Keeps (IsSound {k = k}) (keep_interface ctrl p added)
  unfolding keep_interface
  keep_interface-Keeps ctrl p none h = search (keeps_rules, ctrl_data_free-Keeps)
  keep_interface-Keeps ctrl p (some cache) h =
      Keeps-then _ _ (cached-Keeps cache (h cache refl)) (Keeps-return _)

  added-Keeps :
      (addr : Bytes) (ctrl p id : ℕ) (cache : List NodeItem)
      → IsNodeId id
      → IsCache cache
      → Keeps (IsSound {k = k}) (keep_interface ctrl p (node_cache_add cache minus_one id addr p))
  added-Keeps addr ctrl p id cache is_id h =
      keep_interface-Keeps ctrl p _
        (λ cache' e. node_cache_add-IsCache cache minus_one id addr p cache' h is_id e)

  cache_interface-Keeps :
      (addr : Bytes) (ctrl p : ℕ) → Keeps (IsSound {k = k}) (cache_interface addr ctrl p)
  unfolding cache_interface
  cache_interface-Keeps addr ctrl p =
      search
        (
          Gives-bind (All HasInterfaceId),
          Gives-bind HasId,
          Gives-bind IsCache,
          IsCache-Given,
          interfaces-Given,
          interface-Given,
          added-Keeps,
        )
        depth 12

  pub node_create_interface-Keeps :
      (addr : Bytes) → Keeps (IsSound {k = k}) (node_create_interface addr)
  unfolding node_create_interface
  node_create_interface-Keeps addr = Keeps-bind _ _ ctrl_data_alloc-Keeps λ ctrl.
      Keeps-option ctrl _ _ (Keeps-return _) λ c e.
        Keeps-bind _ _ (gb_interface_alloc-Keeps c) λ inf.
          Keeps-option inf _ _ (Keeps-then _ _ (ctrl_data_free-Keeps _) (Keeps-return _))
            (λ p f. cache_interface-Keeps addr c p)
