-- ===== src/Mdns/Table.antt =====
-- src/mdns.c: the table of the strings that were written, by which a name can end in a reference. The
-- bytes of the buffer that nothing was written to yet are not part of its memory.
use cc1352_firmware.Prelude.{
  ℕ, zero, suc, ◌+◌, ◌-◌, ◌%◌, ◌≡◌, refl, Bool, true, false, ◌||◌, not, List, [], ◌∷◌, ◌++◌, Option,
  none, some, ltb, leb, ◌==◌, if◌then◌else◌, bit_or, length, take, drop, set, get_elem?, Bytes, lo,
  hi, arith,
}
use mathlib.Core.Option
use cc1352_firmware.Mdns.Memory.{◌>>=◌}
use cc1352_firmware.Mdns.Substring.{StringPair, mdns_get_next_substring}
use cc1352_firmware.Mdns.Answer.{memcmp}
use cc1352_firmware.Mdns.Query.{
  dot, mdns_string_find, end_or_at, behind, Written, make_from, mdns_string_make,
}

-- `struct mdns_string_table_t`
pub record StringTable : Type 0 where
  pub offset : List ℕ
  pub count : ℕ
  pub next : ℕ

-- No result stands for a write outside of the table.
unfoldable pub mdns_string_table_add : Option StringTable → ℕ → Option (Option StringTable)
mdns_string_table_add none offset = some none
mdns_string_table_add (some t) offset =
    let table_capacity = length t.offset in
    if leb table_capacity t.next
    then none
    else some (
        some (record {
          offset = set t.offset t.next offset;
          count = if ltb table_capacity (t.count + 1) then table_capacity else t.count + 1;
          next = if leb table_capacity (t.next + 1) then 0 else t.next + 1;
        }))

-- whether the label `sub` of the buffer is the `len` bytes at `offset` of the string; a label that is
-- refused has length 0
unfoldable pub same_label : Bytes → Bytes → ℕ → ℕ → StringPair → Option Bool
unfolding memcmp
same_label buffer str offset len sub = elim sub.offset [
  | none ↦ some false
  | some at ↦
      if sub.length == 0 || not (sub.length == len)
      then some false
      else memcmp (take len (drop offset str)) buffer at
]

-- where the next label is read
abbrev label_end : StringPair → ℕ
label_end sub = elim sub.offset [ none ↦ 0 | some at ↦ at + sub.length ]

-- The inner loop of `mdns_string_table_find`, which compares the labels from `offset` of the string
-- on with those at `cur` of the buffer. A round moves on by one byte of the string at least.
unfoldable pub rest_matches : ℕ → Bytes → ℕ → Bytes → ℕ → ℕ → ℕ → Option Bool
unfolding mdns_string_find same_label mdns_get_next_substring
rest_matches zero buffer capacity str total_length offset cur = some (leb total_length offset)
rest_matches (suc fuel) buffer capacity str total_length offset cur =
    let dot_pos = end_or_at total_length (mdns_string_find str total_length dot offset) in
    let more = λ (sub : StringPair).
      rest_matches fuel buffer capacity str total_length (dot_pos + 1) (label_end sub) in
    if leb total_length offset then some true else (do
      sub ← mdns_get_next_substring buffer capacity cur
      same ← same_label buffer str offset (dot_pos - offset) sub
      elim same [ true ↦ more sub | false ↦ some false ])

-- whether the name at `at`, an offset of the table, begins with the string
unfoldable pub entry_matches : Bytes → ℕ → Bytes → ℕ → ℕ → ℕ → Option Bool
unfolding rest_matches
entry_matches buffer capacity str first_length total_length at =
    let rest = λ (sub : StringPair).
      rest_matches total_length buffer capacity str total_length (first_length + 1)
        (label_end sub) in
    if leb capacity at then some false else (do
      sub ← mdns_get_next_substring buffer capacity at
      same ← same_label buffer str 0 first_length sub
      elim same [ true ↦ rest sub | false ↦ some false ])

-- the loop of `mdns_string_table_find`; `some none` is MDNS_INVALID_POS
unfoldable pub find_in : List ℕ → Bytes → ℕ → Bytes → ℕ → ℕ → Option (Option ℕ)
unfolding entry_matches
find_in [] buffer capacity str first_length total_length = some none
find_in (at ∷ offsets) buffer capacity str first_length total_length = do
  found ← entry_matches buffer capacity str first_length total_length at
  elim found [
    | true ↦ some (some at)
    | false ↦ find_in offsets buffer capacity str first_length total_length
  ]

unfoldable pub mdns_string_table_find :
    Option StringTable → Bytes → ℕ → Bytes → ℕ → ℕ → Option (Option ℕ)
unfolding find_in
mdns_string_table_find none buffer capacity str first_length total_length = some none
mdns_string_table_find (some t) buffer capacity str first_length total_length =
    find_in (take t.count t.offset) buffer capacity str first_length total_length

unfoldable pub mdns_string_make_ref : Bytes → ℕ → ℕ → Written
mdns_string_make_ref buffer capacity ref_offset =
    let w = bit_or 0xc000 (ref_offset % 65536) in
    if ltb capacity 2 then none else some (buffer ++ hi w ∷ lo w ∷ [])

-- the end of `mdns_string_make`
abbrev make_root : Bytes → ℕ → Written
make_root buffer capacity = if leb capacity (length buffer) then none else some (buffer ++ 0 ∷ [])

-- the loop of `mdns_string_make` with a table of strings, or none, and the table that it leaves
unfoldable pub make_with :
    ℕ → Bytes → ℕ → Bytes → ℕ → Option StringTable → ℕ → Option (Written × Option StringTable)
unfolding mdns_string_find mdns_string_table_find mdns_string_make_ref mdns_string_table_add
make_with zero buffer capacity name length' table last_pos = some (make_root buffer capacity, table)
make_with (suc fuel) buffer capacity name length' table last_pos =
    let pos = mdns_string_find name length' dot last_pos in
    let sub_length = end_or_at length' pos - last_pos in
    let remain = capacity - length buffer in
    let buffer' = buffer ++ (sub_length % 256) ∷ take sub_length (drop last_pos name) in
    let more = λ (table' : Option StringTable).
      make_with fuel buffer' capacity name length' table' (behind length' pos) in
    if leb length' last_pos then some (make_root buffer capacity, table) else (do
      found ←
          mdns_string_table_find table buffer capacity (drop last_pos name) sub_length
            (length' - last_pos)
      elim found [
        | some ref_offset ↦ some (mdns_string_make_ref buffer remain ref_offset, table)
        | none ↦
            if leb remain (sub_length + 1)
            then some (none, table)
            else (do table' ← mdns_string_table_add table (length buffer); more table')
      ])

-- `mdns_string_make`. Its only caller passes no table.
unfoldable pub mdns_string_make_with :
    Bytes → ℕ → Bytes → Option StringTable → Option (Written × Option StringTable)
unfolding make_with
mdns_string_make_with buffer capacity name table = do
  last ← (if length name == 0 then none else get_elem? name (length name - 1))
  (let length' = if last == dot then length name - 1 else length name in
      make_with length' buffer capacity name length' table 0)

make_with-none :
    (fuel : ℕ) (buffer : Bytes) (capacity : ℕ) (name : Bytes) (length' last_pos : ℕ)
    → make_with fuel buffer capacity name length' none last_pos
      ≡ some (make_from fuel buffer capacity name length' last_pos, none)
unfolding make_with make_from mdns_string_table_find mdns_string_table_add
make_with-none zero buffer capacity name length' last_pos = refl
make_with-none (suc fuel) buffer capacity name length' last_pos =
    let pos = mdns_string_find name length' dot last_pos in
    let sub_length = end_or_at length' pos - last_pos in
    let buffer' = buffer ++ (sub_length % 256) ∷ take sub_length (drop last_pos name) in
    let more = make_with-none fuel buffer' capacity name length' (behind length' pos) in
    ground (arith, more)

bind_map :
    {A B C : Type 0} (m : Option A) (f : A → Option B) (g : A → Option C) (h : C → B)
    → ((a : A) → f a ≡ Option.map h (g a))
    → m >>= f ≡ Option.map h (m >>= g)
bind_map none f g h e = refl
bind_map (some a) f g h e = e a

-- Without a table of strings, `mdns_string_make` writes every label.
mdns_string_make_with-none :
    (buffer : Bytes) (capacity : ℕ) (name : Bytes)
    → mdns_string_make_with buffer capacity name none
      ≡ Option.map (λ written. (written, none)) (mdns_string_make buffer capacity name)
unfolding mdns_string_make_with mdns_string_make
mdns_string_make_with-none buffer capacity name =
    bind_map (if length name == 0 then none else get_elem? name (length name - 1)) _ _ _ λ last.
      let length' = if last == dot then length name - 1 else length name in
      make_with-none length' buffer capacity name length' 0
