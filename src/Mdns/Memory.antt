-- ===== src/Mdns/Memory.antt =====
-- Reads of memory in src/mdns.c.
use cc1352_firmware.Prelude.{ℕ, ◌+◌, ◌*◌, Option, none, some, get_elem?, Bytes}

infixl 5 ◌>>=◌
abbrev pub ◌>>=◌ : {A B : Type 0} → Option A → (A → Option B) → Option B
◌>>=◌ none f = none
◌>>=◌ (some a) f = f a

-- a number in network byte order
unfoldable pub mdns_ntohs : Bytes → ℕ → Option ℕ
mdns_ntohs buffer at = do
  high ← get_elem? buffer at
  low ← get_elem? buffer (at + 1)
  some (256 * high + low)
