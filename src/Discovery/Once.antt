-- ===== src/Discovery/Once.antt =====
-- src/tcp_discovery.c and src/node.c: the rounds of discovery announce a node once.
use cc1352_firmware.Prelude.{ℕ, zero, suc, ◌≡◌, refl, true, none, [], ◌∷◌, Bytes}
use cc1352_firmware.System.Kernel.{Kernel}
use cc1352_firmware.System.World.{World, done, ◌>>◌}
use cc1352_firmware.Node.Cache.{node_cache_find_by_addr}
use cc1352_firmware.Node.Filter.{node_filter}
use cc1352_firmware.Node.Announcing.{HasRoom, announced, node_filter-announced}
use cc1352_firmware.Discovery.{handler}

module _ {k : Kernel} where
  -- rounds that find nothing new change nothing
  handler_fixed :
      (addr : Bytes) (w : World k)
      → node_filter (addr ∷ []) w ≡ done tt w
      → (rounds : ℕ) → handler rounds addr w ≡ done tt w
  unfolding handler
  handler_fixed addr w e zero = refl
  handler_fixed addr w e (suc rounds) = rw (◌>>◌, e) (handler_fixed addr w e rounds)

  -- Where the slabs, the cache and the heap have room, and the SVC is connected: any number of
  -- rounds of discovery, one at least, with an address that no node of the cache has and that is
  -- equal to itself, add one node to the cache, with its interface, the next id and its control
  -- block, and put exactly one frame on the line, which tells the AP of the module with this id.
  -- The padding of that frame's header is what its block of memory held, and what is read from that
  -- block after it was freed changes nothing.
  pub handler-announced :
      (rounds : ℕ) (addr : Bytes) (w : World k) (r : HasRoom w)
      → node_cache_find_by_addr k.net_ipv6_addr_cmp w.node_cache addr ≡ none
      → k.net_ipv6_addr_cmp addr addr ≡ true
      → handler (suc rounds) addr w ≡ done tt (announced w r addr)
  unfolding handler
  handler-announced rounds addr w r unknown same =
      let (first, again) = node_filter-announced addr w r unknown same in
      rw (◌>>◌, first) (handler_fixed addr (announced w r addr) again rounds)
