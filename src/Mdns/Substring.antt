-- ===== src/Mdns/Substring.antt =====
-- src/mdns.c: how one label of a name is read, through references to earlier labels.
use cc1352_firmware.Prelude.{
  ℕ, zero, suc, ◌+◌, Bool, true, false, Option, none, some, bit_and, ltb, leb, ◌==◌, if◌then◌else◌,
  get_elem?, Bytes,
}
use cc1352_firmware.Mdns.Memory.{◌>>=◌, mdns_ntohs}

-- `struct mdns_string_pair_t`; no offset is MDNS_INVALID_POS
pub record StringPair : Type 0 where
  pub offset : Option ℕ
  pub length : ℕ
  pub ref : Bool

unfoldable pub mdns_is_string_ref : ℕ → Bool
mdns_is_string_ref val = bit_and val 0xc0 == 0xc0

abbrev pub invalid_pair : Bool → StringPair
invalid_pair ref = record { offset = none; length = 0; ref = ref }

-- the part of `mdns_get_next_substring` behind its loop
unfoldable pub label_at : Bytes → ℕ → ℕ → Bool → Option StringPair
label_at buffer size offset ref = do
  n ← get_elem? buffer offset
  (if ltb size (offset + 1 + n)
      then some (invalid_pair ref)
      else some (record { offset = some (offset + 1); length = n; ref = ref }))

-- one round of the loop of `mdns_get_next_substring`; `next` continues at the place referred to
unfoldable pub follow_ref : (ℕ → Option StringPair) → Bytes → ℕ → ℕ → Bool → Option StringPair
unfolding mdns_is_string_ref label_at mdns_ntohs
follow_ref next buffer size offset ref = do
  b ← get_elem? buffer offset
  (if mdns_is_string_ref b
      then (if ltb size (offset + 2) then some (invalid_pair ref) else (do
        w ← mdns_ntohs buffer offset
        (if leb size (bit_and w 0x3fff) then some (invalid_pair ref) else next (bit_and w 0x3fff))))
      else label_at buffer size offset ref)

-- the loop, with 16 - `recursion` references left to follow
unfoldable pub follow_refs : ℕ → Bytes → ℕ → ℕ → Bool → Option StringPair
unfolding follow_ref
follow_refs zero buffer size offset ref =
    follow_ref (λ target. some (invalid_pair true)) buffer size offset ref
follow_refs (suc left) buffer size offset ref =
    follow_ref (λ target. follow_refs left buffer size target true) buffer size offset ref

unfoldable pub mdns_get_next_substring : Bytes → ℕ → ℕ → Option StringPair
unfolding follow_refs
mdns_get_next_substring buffer size offset =
    if leb size offset then some (invalid_pair false) else (do
      b ← get_elem? buffer offset
      (if b == 0
          then some (record { offset = some offset; length = 0; ref = false })
          else follow_refs 16 buffer size offset false))
