-- ===== src/Mdns/Agreement.antt =====
-- src/mdns.c: where a name can be read, skipping it leads to the same offset.
use cc1352_firmware.Prelude.{
  ℕ, zero, suc, ◌+◌, ◌≤◌, ◌≡◌, inl, inr, [], Option, none, some, ◌==◌, arith, Bool-cases, length,
  Bytes,
}
use cc1352_firmware.Mdns.Name.{
  skip_step, skip_from, mdns_string_skip, Extracted, extract_from, mdns_string_extract,
}
use cc1352_firmware.Mdns.Bounds.{Label, mdns_get_next_substring-Label}
use cc1352_firmware.Mdns.Reading.{copy_label_lem}

-- The reading sets no offset but this one.
abbrev Sets : ℕ → Option Extracted → Type 0
Sets e r = (x : Extracted) (off : ℕ) → r ≡ some x → x.offset ≡ some off → off ≡ e

module _ (buffer : Bytes) (size : ℕ) (h : size ≤ length buffer) where
  -- Behind a reference the offset is settled.
  extract_from-Sets :
      (capacity left cur e : ℕ) (str : Bytes)
      → length str ≤ capacity
      → Sets e (extract_from left buffer size capacity cur (some e) str)
  unfolding extract_from
  extract_from-Sets capacity zero cur e str l x off r f =
      elim (mdns_get_next_substring-Label buffer size h cur) [
        | Label.refused ref s ↦ absurd (ground (arith, s, r, f))
        | Label.root lt s ↦ absurd (ground (arith, s, r, f))
        | Label.label n ne fits s ↦ absurd (ground (arith, s, r, f))
        | Label.referred o n fits inside s ↦ absurd (ground (arith, s, r, f))
      ]
  extract_from-Sets capacity (suc left) cur e str l x off r f =
      elim (mdns_get_next_substring-Label buffer size h cur) [
        | Label.refused ref s ↦ absurd (ground (arith, s, r, f))
        | Label.root lt s ↦
            let (str', c, l') = copy_label_lem buffer size h capacity str cur 0 (omega arith) l in
            ground (arith, s, r, f, c)
        | Label.label n ne fits s ↦
            let (str', c, l') = copy_label_lem buffer size h capacity str (cur + 1) n fits l in
            extract_from-Sets capacity left (cur + 1 + n) e str' l' x off
              (ground (arith, s, c, r, ne)) f
        | Label.referred o n fits inside s ↦
            let (str', c, l') = copy_label_lem buffer size h capacity str o n inside l in
            elim (Bool-cases (n == 0)) [
              | inl z ↦ ground (arith, s, c, z, r, f)
              | inr nz ↦
                  extract_from-Sets capacity left (o + n) e str' l' x off
                    (ground (arith, s, c, nz, r)) f
            ]
      ]

  skip_from-extract_from :
      (capacity left cur : ℕ) (str : Bytes) (x : Extracted) (off : ℕ)
      → length str ≤ capacity
      → extract_from left buffer size capacity cur none str ≡ some x
      → x.offset ≡ some off
      → skip_from left buffer size cur ≡ some (some off)
  unfolding extract_from skip_from skip_step
  skip_from-extract_from capacity zero cur str x off l r f =
      elim (mdns_get_next_substring-Label buffer size h cur) [
        | Label.refused ref s ↦ absurd (ground (arith, s, r, f))
        | Label.root lt s ↦ absurd (ground (arith, s, r, f))
        | Label.label n ne fits s ↦ absurd (ground (arith, s, r, f))
        | Label.referred o n fits inside s ↦ absurd (ground (arith, s, r, f))
      ]
  skip_from-extract_from capacity (suc left) cur str x off l r f =
      elim (mdns_get_next_substring-Label buffer size h cur) [
        | Label.refused ref s ↦ absurd (ground (arith, s, r, f))
        | Label.root lt s ↦
            let (str', c, l') = copy_label_lem buffer size h capacity str cur 0 (omega arith) l in
            ground (arith, s, r, f, c)
        | Label.label n ne fits s ↦
            let (str', c, l') = copy_label_lem buffer size h capacity str (cur + 1) n fits l in
            let more : extract_from left buffer size capacity (cur + 1 + n) none str' ≡ some x =
              ground (arith, s, c, r, ne) in
            let rest = skip_from-extract_from capacity left (cur + 1 + n) str' x off l' more f in
            ground (arith, s, rest, ne)
        | Label.referred o n fits inside s ↦
            let (str', c, l') = copy_label_lem buffer size h capacity str o n inside l in
            let settled : off ≡ cur + 2 = elim (Bool-cases (n == 0)) [
              | inl z ↦ ground (arith, s, c, z, r, f)
              | inr nz ↦
                  extract_from-Sets capacity left (o + n) (cur + 2) str' l' x off
                    (ground (arith, s, c, nz, r)) f
            ] in
            ground (arith, s, settled)
      ]

  -- Where the buffer is as large as the message, and reading a name sets a new offset, skipping the
  -- name from the same place succeeds and gives the same offset.
  pub mdns_string_skip-mdns_string_extract :
      (offset capacity : ℕ) (x : Extracted) (off : ℕ)
      → mdns_string_extract buffer size offset capacity ≡ some x
      → x.offset ≡ some off
      → mdns_string_skip buffer size offset ≡ some (some off)
  unfolding mdns_string_extract mdns_string_skip
  mdns_string_skip-mdns_string_extract offset capacity x off r f =
      skip_from-extract_from capacity 65 offset [] x off (omega arith) r f
