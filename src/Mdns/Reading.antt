-- ===== src/Mdns/Reading.antt =====
-- src/mdns.c: skipping and reading a name end within the message, and agree on where.
use cc1352_firmware.Prelude.{
  ℕ, zero, suc, ◌+◌, ◌-◌, ◌≤◌, ◌<◌, ◌≡◌, ◌≢◌, ◌⊎◌, inl, inr, refl, Bool, true, false, [], ◌∷◌, ◌++◌,
  Option, none, some, min, ltb, ◌==◌, arith, Bool-cases, length, length-append, length-take,
  length-drop, take, drop, Bytes,
}
use cc1352_firmware.Mdns.Memory.{◌>>=◌}
use cc1352_firmware.Mdns.Substring.{mdns_get_next_substring}
use cc1352_firmware.Mdns.Name.{
  skip_step, skip_from, mdns_string_skip, Extracted, copy_label, end_of, end_or, extract_from,
  mdns_string_extract,
}
use cc1352_firmware.Mdns.Bounds.{Label, mdns_get_next_substring-Label}

-- The name was refused, or the offset behind it is past `start` and in the message.
abbrev pub Skipped : ℕ → ℕ → Option (Option ℕ) → Type 0
Skipped size start r =
    (r ≡ some none) ⊎ ((offset : ℕ) × (r ≡ some (some offset)) × (start < offset) × (offset ≤ size))

-- The reading ended: no more than `capacity` bytes were written, and a new offset is past `start`
-- and in the message.
abbrev pub Read : ℕ → ℕ → ℕ → Option Extracted → Type 0
Read size start capacity r =
    (x : Extracted) × (r ≡ some x)
    × (length x.str ≤ capacity)
    × (x.length ≤ length x.str)
    × ((offset : ℕ) → x.offset ≡ some offset → (start < offset) × (offset ≤ size))

abbrev EndIsIn : ℕ → ℕ → ℕ → Option ℕ → Type 0
EndIsIn size start cur none = start ≤ cur
EndIsIn size start cur (some e) = (start < e) × (e ≤ size)

module _ (buffer : Bytes) (size : ℕ) (h : size ≤ length buffer) where
  skip_from-Skipped :
      (left start cur : ℕ) → start ≤ cur → Skipped size start (skip_from left buffer size cur)
  unfolding skip_from skip_step
  skip_from-Skipped zero start cur l = elim (mdns_get_next_substring-Label buffer size h cur) [
    | Label.refused ref e ↦ inl (rw (e, ◌>>=◌) refl)
    | Label.root lt e ↦ inl (rw (e, ◌>>=◌) refl)
    | Label.label n ne fits e ↦ inl (rw (e, ◌>>=◌) refl)
    | Label.referred o n fits inside e ↦ inl (rw (e, ◌>>=◌) refl)
  ]
  skip_from-Skipped (suc left) start cur l =
      elim (mdns_get_next_substring-Label buffer size h cur) [
        | Label.refused ref e ↦ inl (ground (arith, e))
        | Label.root lt e ↦ inr (cur + 1, ground (arith, e), omega arith, omega arith)
        | Label.label n ne fits e ↦
            let same : skip_from (suc left) buffer size cur
                ≡ skip_from left buffer size (cur + 1 + n) =
              ground (arith, e) in
            rw same (skip_from-Skipped left start (cur + 1 + n) (omega arith))
        | Label.referred o n fits inside e ↦
            inr (cur + 2, ground (arith, e), omega arith, omega arith)
      ]

  mdns_string_skip-Skipped :
      (offset : ℕ) → Skipped size offset (mdns_string_skip buffer size offset)
  unfolding mdns_string_skip
  mdns_string_skip-Skipped offset = skip_from-Skipped 65 offset offset (omega arith)

  pub copy_label_lem :
      (capacity : ℕ) (str : Bytes) (offset len : ℕ)
      → offset + len ≤ size
      → length str ≤ capacity
      → (str' : Bytes) × (copy_label buffer capacity str offset len ≡ some str')
        × (length str' ≤ capacity)
  unfolding copy_label
  copy_label_lem capacity str offset len inside l =
      let to_copy = min len (capacity - length str) in
      let copied = take to_copy (drop offset buffer) in
      let s = length-append str copied in
      let t = length-take to_copy (drop offset buffer) in
      let d = length-drop offset buffer in
      let u = length-append (str ++ copied) (0x2e ∷ []) in
      elim (Bool-cases (len == 0)) [
        | inl z ↦ (str, rw z refl, l)
        | inr nz ↦ elim (Bool-cases (ltb (length str + to_copy) capacity)) [
          | inl room ↦ (
            str ++ copied ++ 0x2e ∷ [],
            ground (arith, nz, room),
            ground (arith, s, t, d, u, room),
          )
          | inr no_room ↦ (str ++ copied, ground (arith, nz, no_room), ground (arith, s, t))
        ]
      ]

  end_of-label :
      (start cur cur' : ℕ) (end : Option ℕ)
      → EndIsIn size start cur end
      → cur ≤ cur'
      → EndIsIn size start cur' (end_of end false cur)
  end_of-label start cur cur' none i l = omega arith
  end_of-label start cur cur' (some e) i l = i

  end_of-reference :
      (start cur cur' : ℕ) (end : Option ℕ)
      → EndIsIn size start cur end
      → cur + 2 ≤ size
      → EndIsIn size start cur' (end_of end true cur)
  end_of-reference start cur cur' none i fits = (omega arith, fits)
  end_of-reference start cur cur' (some e) i fits = i

  end_or-root :
      (start cur : ℕ) (end : Option ℕ)
      → EndIsIn size start cur end
      → cur < size
      → (start < end_or (end_of end false cur) (cur + 0))
        × (end_or (end_of end false cur) (cur + 0) ≤ size)
  end_or-root start cur none i lt = (omega arith, omega arith)
  end_or-root start cur (some e) i lt = i

  end_or-reference :
      (start cur cur' : ℕ) (end : Option ℕ)
      → EndIsIn size start cur end
      → cur + 2 ≤ size
      → (start < end_or (end_of end true cur) cur') × (end_or (end_of end true cur) cur' ≤ size)
  end_or-reference start cur cur' none i fits = (omega arith, fits)
  end_or-reference start cur cur' (some e) i fits = i

  -- The reading behind a label of `n` bytes at `o`, whose own reading is known.
  extract_from-label :
      (capacity left start cur : ℕ) (end : Option ℕ) (str : Bytes) (o n : ℕ) (ref : Bool)
      → mdns_get_next_substring buffer size cur
        ≡ some (record { offset = some o; length = n; ref = ref })
      → o + n ≤ size
      → length str ≤ capacity
      → (n ≡ 0
          → (start < end_or (end_of end ref cur) (o + n))
            × (end_or (end_of end ref cur) (o + n) ≤ size))
      → ((str' : Bytes)
          → length str' ≤ capacity
          → n ≢ 0
          → Read size start capacity
              (extract_from left buffer size capacity (o + n) (end_of end ref cur) str'))
      → Read size start capacity (extract_from (suc left) buffer size capacity cur end str)
  unfolding extract_from
  extract_from-label capacity left start cur end str o n ref e inside l last more =
      let (str', c, l') = copy_label_lem capacity str o n inside l in
      elim (Bool-cases (n == 0)) [
        | inl z ↦ (
          record {
            str = str';
            length = length str';
            offset = some (end_or (end_of end ref cur) (o + n));
          },
          rw (e, ◌>>=◌, c, z) refl,
          l',
          omega arith,
          λ off f. ground (arith, f, last (ground (arith, z))),
        )
        | inr nz ↦ rw (e, ◌>>=◌, c, nz) (more str' l' (ground (arith, nz)))
      ]

  extract_from-Read :
      (capacity left start cur : ℕ) (end : Option ℕ) (str : Bytes)
      → EndIsIn size start cur end
      → length str ≤ capacity
      → Read size start capacity (extract_from left buffer size capacity cur end str)
  unfolding extract_from
  extract_from-Read capacity zero start cur end str i l =
      let unread : Extracted = record { str = str; length = 0; offset = none } in
      elim (mdns_get_next_substring-Label buffer size h cur) [
        | Label.refused ref e ↦ (unread, ground (arith, e), l, omega arith, λ o f. cc)
        | Label.root lt e ↦ (unread, ground (arith, e), l, omega arith, λ o f. cc)
        | Label.label n ne fits e ↦ (unread, ground (arith, e), l, omega arith, λ o f. cc)
        | Label.referred o n fits inside e ↦ (unread, ground (arith, e), l, omega arith, λ o f. cc)
      ]
  extract_from-Read capacity (suc left) start cur end str i l =
      elim (mdns_get_next_substring-Label buffer size h cur) [
        | Label.refused ref e ↦ (
          record { str = str; length = 0; offset = none },
          ground (arith, e),
          l,
          omega arith,
          λ o f. cc,
        )
        | Label.root lt e ↦
            extract_from-label capacity left start cur end str cur 0 false e (omega arith) l
              (λ z. end_or-root start cur end i lt) (λ str' l' nz. absurd (nz refl))
        | Label.label n ne fits e ↦
            extract_from-label capacity left start cur end str (cur + 1) n false e fits l
              (λ z. absurd (ne z))
              (λ str' l' nz.
                extract_from-Read capacity left start (cur + 1 + n) (end_of end false cur) str'
                  (end_of-label start cur (cur + 1 + n) end i (omega arith)) l')
        | Label.referred o n fits inside e ↦
            extract_from-label capacity left start cur end str o n true e inside l
              (λ z. end_or-reference start cur (o + n) end i fits)
              (λ str' l' nz.
                extract_from-Read capacity left start (o + n) (end_of end true cur) str'
                  (end_of-reference start cur (o + n) end i fits) l')
      ]

  mdns_string_extract-Read :
      (offset capacity : ℕ)
      → Read size offset capacity (mdns_string_extract buffer size offset capacity)
  unfolding mdns_string_extract
  mdns_string_extract-Read offset capacity =
      extract_from-Read capacity 65 offset offset none [] (omega arith) (omega arith)

  -- Where the buffer is as large as the message, skipping the name at any offset and reading it into
  -- `capacity` bytes both end, and read within the message only. Skipping either refuses the name or
  -- leaves an offset that is past the given one and at most the size of the message; reading writes
  -- at most `capacity` bytes, and an offset that it sets is past the given one and at most the size
  -- of the message.
  pub mdns_string_within :
      (offset capacity : ℕ)
      → Skipped size offset (mdns_string_skip buffer size offset)
        × Read size offset capacity (mdns_string_extract buffer size offset capacity)
  mdns_string_within offset capacity =
      (mdns_string_skip-Skipped offset, mdns_string_extract-Read offset capacity)
