-- ===== src/Mdns/Name.antt =====
-- src/mdns.c: how a name is skipped and how it is read.
use cc1352_firmware.Prelude.{
  ℕ, zero, suc, ◌+◌, ◌-◌, Bool, [], ◌∷◌, ◌++◌, Option, none, some, min, ltb, ◌==◌, if◌then◌else◌,
  length, take, drop, Bytes,
}
use cc1352_firmware.Mdns.Memory.{◌>>=◌}
use cc1352_firmware.Mdns.Substring.{StringPair, mdns_get_next_substring}

-- One round of the loop of `mdns_string_skip` at `cur`, of which `substr` is the label; `next`
-- continues behind the label. `some none` is the result 0, else the new offset is given.
unfoldable pub skip_step : (ℕ → Option (Option ℕ)) → ℕ → StringPair → Option (Option ℕ)
skip_step next cur substr = elim substr.offset [
  | none ↦ some none
  | some offset ↦
      if substr.ref
      then some (some (cur + 2))
      else if substr.length == 0
      then some (some (offset + substr.length + 1))
      else next (offset + substr.length)
]

-- the loop, with 65 - `counter` rounds left
unfoldable pub skip_from : ℕ → Bytes → ℕ → ℕ → Option (Option ℕ)
unfolding skip_step
skip_from zero buffer size cur = do substr ← mdns_get_next_substring buffer size cur; some none
skip_from (suc left) buffer size cur = do
  substr ← mdns_get_next_substring buffer size cur
  skip_step (skip_from left buffer size) cur substr

unfoldable pub mdns_string_skip : Bytes → ℕ → ℕ → Option (Option ℕ)
mdns_string_skip buffer size offset = skip_from 65 buffer size offset

-- What `mdns_string_extract` leaves: the bytes written to `str`, the length of the result, and
-- the new offset where it sets one.
pub record Extracted : Type 0 where
  pub str : Bytes
  pub length : ℕ
  pub offset : Option ℕ

-- The label at `offset` is copied behind what has been written, as far as there is room, and a
-- dot behind it.
unfoldable pub copy_label : Bytes → ℕ → Bytes → ℕ → ℕ → Option Bytes
copy_label buffer capacity str offset len =
    let to_copy = min len (capacity - length str) in
    let str' = str ++ take to_copy (drop offset buffer) in
    if len == 0
    then some str
    else if ltb (length buffer) (offset + to_copy)
    then none
    else if ltb (length str + to_copy) capacity
    then some (str' ++ 0x2e ∷ [])
    else some str'

-- where the name ends: behind the first reference, or behind the root
abbrev pub end_of : Option ℕ → Bool → ℕ → Option ℕ
end_of (some e) ref cur = some e
end_of none ref cur = if ref then some (cur + 2) else none

-- the offset that is stored at the end of `mdns_string_extract`
abbrev pub end_or : Option ℕ → ℕ → ℕ
end_or (some e) cur = e
end_or none cur = cur + 1

-- the loop of `mdns_string_extract`, with 65 - `counter` rounds left
unfoldable pub extract_from : ℕ → Bytes → ℕ → ℕ → ℕ → Option ℕ → Bytes → Option Extracted
unfolding copy_label
extract_from zero buffer size capacity cur end str = do
  substr ← mdns_get_next_substring buffer size cur
  some (record { str = str; length = 0; offset = none })
extract_from (suc left) buffer size capacity cur end str = do
  substr ← mdns_get_next_substring buffer size cur
  (elim substr.offset [
    | none ↦ some (record { str = str; length = 0; offset = none })
    | some offset ↦
        let end' = end_of end substr.ref cur in
        let cur' = offset + substr.length in
        let more = extract_from left buffer size capacity cur' end' in
        (do
          str' ← copy_label buffer capacity str offset substr.length
          (if substr.length == 0
              then some
                  (record { str = str'; length = length str'; offset = some (end_or end' cur') })
              else more str'))
  ])

unfoldable pub mdns_string_extract : Bytes → ℕ → ℕ → ℕ → Option Extracted
mdns_string_extract buffer size offset capacity =
    extract_from 65 buffer size capacity offset none []
