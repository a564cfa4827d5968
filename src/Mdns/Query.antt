-- ===== src/Mdns/Query.antt =====
-- src/mdns.c: how a query is written.
use cc1352_firmware.Prelude.{
  ℕ, zero, suc, ◌+◌, ◌-◌, ◌%◌, [], ◌∷◌, ◌++◌, Option, none, some, ltb, leb, ◌==◌, if◌then◌else◌,
  length, take, drop, get_elem?, Bytes, lo, hi,
}
use mathlib.Core.Option
use cc1352_firmware.Mdns.Memory.{◌>>=◌}

abbrev pub dot : ℕ
dot = 0x2e

-- `memchr`: the position of the first such byte
abbrev pub memchr : ℕ → Bytes → Option ℕ
memchr c [] = none
memchr c (b ∷ bytes) = if b == c then some 0 else Option.map suc (memchr c bytes)

unfoldable pub mdns_string_find : Bytes → ℕ → ℕ → ℕ → Option ℕ
mdns_string_find str length c offset =
    if leb length offset
    then none
    else Option.map (λ i. offset + i) (memchr c (take (length - offset) (drop offset str)))

abbrev pub end_or_at : ℕ → Option ℕ → ℕ
end_or_at length none = length
end_or_at length (some pos) = pos

abbrev pub behind : ℕ → Option ℕ → ℕ
behind length none = length
behind length (some pos) = pos + 1

-- What `mdns_string_make` returns: the buffer up to the new end, or 0.
abbrev pub Written : Type 0
Written = Option Bytes

-- the loop of `mdns_string_make` without a table of strings, and what comes behind it; `buffer`
-- is what has been written so far. A round moves on by one byte of the name at least, so the name
-- is at its end when the fuel, one for each byte left, is.
unfoldable pub make_from : ℕ → Bytes → ℕ → Bytes → ℕ → ℕ → Written
unfolding mdns_string_find
make_from zero buffer capacity name length' last_pos =
    if leb capacity (length buffer) then none else some (buffer ++ 0 ∷ [])
make_from (suc fuel) buffer capacity name length' last_pos =
    let pos = mdns_string_find name length' dot last_pos in
    let sub_length = end_or_at length' pos - last_pos in
    let buffer' = buffer ++ (sub_length % 256) ∷ take sub_length (drop last_pos name) in
    let more = make_from fuel buffer' capacity name length' (behind length' pos) in
    if leb length' last_pos
    then (if leb capacity (length buffer) then none else some (buffer ++ 0 ∷ []))
    else if leb (capacity - length buffer) (sub_length + 1)
    then none
    else more

-- `mdns_string_make` at the end of the buffer. An empty name is read in front of its first byte.
unfoldable pub mdns_string_make : Bytes → ℕ → Bytes → Option Written
unfolding make_from
mdns_string_make buffer capacity name = do
  last ← (if length name == 0 then none else get_elem? name (length name - 1))
  (let length' = if last == dot then length name - 1 else length name in
      some (make_from length' buffer capacity name length' 0))

abbrev pub mdns_recordtype_ptr : ℕ
mdns_recordtype_ptr = 12

-- `mdns_multiquery_send` of one query up to `mdns_multicast_send`, whose bytes are the result.
-- The class is MDNS_CLASS_IN whatever the socket's own name is. Type and class are written
-- without a test for room.
unfoldable pub mdns_multiquery_send : Bytes → ℕ → ℕ → ℕ → Option Written
unfolding mdns_string_make
mdns_multiquery_send name type capacity query_id = if ltb capacity (12 + 6) then some none else (do
  made ←
      mdns_string_make (hi query_id ∷ lo query_id ∷ 0 ∷ 0 ∷ 0 ∷ 1 ∷ 0 ∷ 0 ∷ 0 ∷ 0 ∷ 0 ∷ 0 ∷ [])
        capacity name
  (elim made [
    | none ↦ some none
    | some data' ↦
        if ltb capacity (length data' + 4)
        then none
        else some (some (data' ++ hi type ∷ lo type ∷ 0 ∷ 1 ∷ []))
  ]))

unfoldable pub mdns_query_send : Bytes → Option Written
mdns_query_send name = mdns_multiquery_send name mdns_recordtype_ptr 100 0
