-- ===== src/Tests/Strings.antt =====
-- Names that end in a reference to a name that was written before.
use cc1352_firmware.Prelude.{ℕ, ◌≡◌, refl, [], ◌∷◌, none, some, replicate, Bytes, arith}
use cc1352_firmware.Mdns.Name.{mdns_string_extract, extract_from}
use cc1352_firmware.Mdns.Substring.{mdns_get_next_substring}
use cc1352_firmware.Mdns.Compressed.{mdns_string_extract-encode_labels}
use cc1352_firmware.Mdns.Table.{StringTable, mdns_string_make_with}

abbrev empty : StringTable
empty = record { offset = replicate 16 0; count = 0; next = 0 }

-- "ab.c"
abbrev ab_c : Bytes
ab_c = 0x61 ∷ 0x62 ∷ 0x2e ∷ 0x63 ∷ []

-- "d.c"
abbrev d_c : Bytes
d_c = 0x64 ∷ 0x2e ∷ 0x63 ∷ []

abbrev after_first : StringTable
after_first = record { offset = 0 ∷ 3 ∷ replicate 14 0; count = 2; next = 2 }

abbrev after_second : StringTable
after_second = record { offset = 0 ∷ 3 ∷ 6 ∷ replicate 13 0; count = 3; next = 3 }

first :
    mdns_string_make_with [] 40 ab_c (some empty)
    ≡ some (some (2 ∷ 0x61 ∷ 0x62 ∷ 1 ∷ 0x63 ∷ 0 ∷ []), some after_first)
unfolding mdns_string_make_with
first = refl

-- its last label is a reference to that of the first
second :
    mdns_string_make_with (2 ∷ 0x61 ∷ 0x62 ∷ 1 ∷ 0x63 ∷ 0 ∷ []) 40 d_c (some after_first)
    ≡ some (some (2 ∷ 0x61 ∷ 0x62 ∷ 1 ∷ 0x63 ∷ 0 ∷ 1 ∷ 0x64 ∷ 0xc0 ∷ 3 ∷ []), some after_second)
unfolding mdns_string_make_with
second = refl

-- "a.a": the second label is a reference to the first, which goes on with the reference itself.
abbrev a_a : Bytes
a_a = 0x61 ∷ 0x2e ∷ 0x61 ∷ []

circular :
    mdns_string_make_with [] 40 a_a (some empty)
    ≡ some (
      some (1 ∷ 0x61 ∷ 0xc0 ∷ 0 ∷ []),
      some (record { offset = replicate 16 0; count = 1; next = 1 }),
    )
unfolding mdns_string_make_with
circular = refl

-- It is not read back: the reading gives up after 65 labels.
not_read_back :
    mdns_string_extract (1 ∷ 0x61 ∷ 0xc0 ∷ 0 ∷ []) 4 0 4
    ≡ some (record { str = 0x61 ∷ 0x2e ∷ 0x61 ∷ 0x2e ∷ []; length = 0; offset = none })
unfolding mdns_string_extract extract_from mdns_get_next_substring
not_read_back = refl

-- the second of the names above
abbrev letter : ℕ → Bytes
letter b = b ∷ []

mdns_string_extract-encode_labels_example :
    mdns_string_extract (2 ∷ 0x61 ∷ 0x62 ∷ 1 ∷ 0x63 ∷ 0 ∷ 1 ∷ 0x64 ∷ 0xc0 ∷ 3 ∷ []) 10 6 20
    ≡ some (record { str = 0x64 ∷ 0x2e ∷ 0x63 ∷ 0x2e ∷ []; length = 4; offset = some 10 })
mdns_string_extract-encode_labels_example =
    mdns_string_extract-encode_labels (letter 0x64 ∷ []) (letter 0x63) [] 0xc0 3
      (2 ∷ 0x61 ∷ 0x62 ∷ 1 ∷ 0x63 ∷ 0 ∷ 1 ∷ 0x64 ∷ 0xc0 ∷ 3 ∷ [])
      (2 ∷ 0x61 ∷ 0x62 ∷ 1 ∷ 0x63 ∷ 0 ∷ []) [] (2 ∷ 0x61 ∷ 0x62 ∷ []) (1 ∷ 0x64 ∷ 0xc0 ∷ 3 ∷ []) 20
      (ground arith) (ground arith) refl refl
      (record { tagged = omega arith; byte = omega arith; refers = refl }) (omega arith)
      (omega arith)
