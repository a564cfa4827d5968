-- ===== src/Node/Cache.antt =====
-- src/node.c: the cache of nodes, as the list of its first `node_cache_pos` items. A search
-- returns the index, or none for -1.
use cc1352_firmware.Prelude.{
  ℕ, suc, ◌-◌, Bool, false, List, [], ◌∷◌, ◌++◌, Option, none, some, leb, ◌==◌, if◌then◌else◌,
  length, get_elem?, set, take, Bytes,
}
use mathlib.Core.Option
use cc1352_firmware.Prelude.Int.{ℤ, pos, negsuc}
use cc1352_firmware.System.World.{NodeItem}

-- CONFIG_BEAGLEPLAY_GREYBUS_MAX_NODES of prj.conf
abbrev pub max_greybus_nodes : ℕ
max_greybus_nodes = 32

-- the index of the first item that passes the test
abbrev pub find_index {ℓ} : {A : Type ℓ} → (A → Bool) → List A → Option ℕ
find_index test [] = none
find_index test (x ∷ xs) = if test x then some 0 else Option.map suc (find_index test xs)

abbrev pub int_eq : ℤ → ℤ → Bool
int_eq (pos a) (pos b) = a == b
int_eq (negsuc a) (negsuc b) = a == b
int_eq _ _ = false

-- The comparison of addresses is the network library's.
unfoldable pub node_cache_find_by_addr : (Bytes → Bytes → Bool) → List NodeItem → Bytes → Option ℕ
node_cache_find_by_addr net_ipv6_addr_cmp cache addr =
    find_index (λ (n : NodeItem). net_ipv6_addr_cmp n.addr addr) cache

unfoldable pub node_cache_find_by_sock : List NodeItem → ℤ → Option ℕ
node_cache_find_by_sock cache sock = find_index (λ (n : NodeItem). int_eq n.sock sock) cache

unfoldable pub node_cache_find_by_id : List NodeItem → ℕ → Option ℕ
node_cache_find_by_id cache id = find_index (λ (n : NodeItem). n.id == id) cache

-- `none` is -ENOMEM.
unfoldable pub node_cache_add : List NodeItem → ℤ → ℕ → Bytes → ℕ → Option (List NodeItem)
node_cache_add cache sock id addr intf =
    if leb max_greybus_nodes (length cache)
    then none
    else some
        (cache ++ (record { sock = sock; id = id; addr = addr; inf = intf; fail_count = 0 } ∷ []))

-- The last item is copied to the position, unless it is the last one itself.
unfoldable pub node_cache_remove_at : List NodeItem → ℕ → List NodeItem
node_cache_remove_at cache at =
    let last = length cache - 1 in
    if at == last
    then take last cache
    else elim (get_elem? cache last) [ none ↦ cache | some item ↦ take last (set cache at item) ]

unfoldable pub node_cache_remove_by_id : List NodeItem → ℕ → List NodeItem
unfolding node_cache_find_by_id node_cache_remove_at
node_cache_remove_by_id cache id = elim (node_cache_find_by_id cache id) [
  | none ↦ cache
  | some at ↦ node_cache_remove_at cache at
]
