-- ===== src/System/Kernel.antt =====
-- What the firmware calls and does not implement: the heap, the memory slabs, the sockets and the
-- checksum of the operating system. Each is a state of its own with its operations; a pointer is
-- a number.
use cc1352_firmware.Prelude.{ℕ, Bool, Option, Bytes}
use cc1352_firmware.Prelude.Int.{ℤ}

pub data Family : Type 0 where
  af_inet af_inet6 : Family

-- the address of a socket, with its port
pub record SockAddr : Type 0 where
  pub family : Family
  pub port : ℕ
  pub addr : Bytes

pub record Kernel : Type 1 where
  -- `k_heap_alloc` with K_NO_WAIT returns no block where none fits.
  pub Heap : Type 0
  pub k_heap_alloc : Heap → ℕ → Option (ℕ × Heap)
  pub k_heap_free : Heap → ℕ → Heap
  -- What a read of the heap's memory gives at an address where nothing was written since its block
  -- was handed out or given back: any bytes at all.
  pub memory : Heap → ℕ → ℕ
  pub Slab : Type 0
  pub k_mem_slab_alloc : Slab → Option (ℕ × Slab)
  pub k_mem_slab_free : Slab → ℕ → Slab
  pub k_mem_slab_num_used_get : Slab → ℕ
  -- the sockets: `zsock_recv` hands back the bytes that it wrote
  pub Net : Type 0
  pub zsock_socket : Net → Family → ℤ × Net
  pub zsock_connect : Net → ℤ → SockAddr → ℤ × Net
  pub zsock_close : Net → ℤ → Net
  pub zsock_send : Net → ℤ → Bytes → ℤ × Net
  pub zsock_recv : Net → ℤ → ℕ → ℤ × Bytes × Net
  -- `net_ipv6_addr_cmp`: whether two addresses are equal
  pub net_ipv6_addr_cmp : Bytes → Bytes → Bool
  pub crc16_ccitt : ℕ → Bytes → ℕ
