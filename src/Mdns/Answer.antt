-- ===== src/Mdns/Answer.antt =====
-- src/mdns.c: how an answer is searched for the name of a node. A read through a null pointer
-- counts as one outside of memory.
use cc1352_firmware.Prelude.{
  ℕ, zero, suc, ◌+◌, ◌-◌, Bool, true, false, [], ◌∷◌, ◌++◌, Option, none, some, ltb, leb, ◌==◌,
  ◌&&◌, if◌then◌else◌, length, take, drop, Bytes,
}
use cc1352_firmware.Mdns.Memory.{◌>>=◌, mdns_ntohs}
use cc1352_firmware.Mdns.Name.{Extracted, mdns_string_skip, mdns_string_extract}

abbrev pub mdns_ptr_name_size : ℕ
mdns_ptr_name_size = 100

abbrev pub bytes_eq : Bytes → Bytes → Bool
bytes_eq [] [] = true
bytes_eq (x ∷ xs) (y ∷ ys) = x == y && bytes_eq xs ys
bytes_eq _ _ = false

-- whether `memcmp` of `wanted` with the memory at an offset is 0
unfoldable pub memcmp : Bytes → Bytes → ℕ → Option Bool
memcmp wanted memory at =
    if ltb (length memory) (at + length wanted)
    then none
    else some (bytes_eq wanted (take (length wanted) (drop at memory)))

-- "zephyr."
abbrev pub expected : Bytes
expected = 0x7a ∷ 0x65 ∷ 0x70 ∷ 0x68 ∷ 0x79 ∷ 0x72 ∷ 0x2e ∷ []

-- `some none` is the result with a null `str`.
unfoldable pub mdns_record_parse_ptr : Bytes → ℕ → ℕ → ℕ → ℕ → Option (Option Extracted)
mdns_record_parse_ptr buffer size offset length capacity =
    if leb (offset + length) size && leb 2 length
    then (do x ← mdns_string_extract buffer size offset capacity; some (some x))
    else some none

-- The two comparisons with the name that was read into `namebuffer`.
unfoldable pub is_wanted : Bytes → Bytes → Option Bool
unfolding memcmp
is_wanted query namebuffer = do
  same ← memcmp expected namebuffer 0
  (if same then memcmp query namebuffer (length expected) else some false)

-- The record whose data is the `length` bytes at `offset`; `next` continues with the name buffer.
unfoldable pub check_record :
    (Bytes → Option Bool) → Bytes → ℕ → ℕ → ℕ → Bytes → Bytes → Option Bool
unfolding is_wanted
check_record next buffer size offset len query namebuffer = do
  namestr ← mdns_record_parse_ptr buffer size offset len mdns_ptr_name_size
  (elim namestr [
    | none ↦ none
    | some x ↦
        let namebuffer' = x.str ++ drop (length x.str) namebuffer in
        (do found ← is_wanted query namebuffer'; (if found then some true else next namebuffer'))
  ])

abbrev pub or_same : ℕ → Option ℕ → ℕ
or_same offset none = offset
or_same offset (some offset') = offset'

-- `namebuffer` is what the stack holds in its place.
unfoldable pub mdns_answer_check : Bytes → ℕ → ℕ → ℕ → Bytes → Bytes → Option Bool
unfolding check_record
mdns_answer_check buffer size offset zero query namebuffer = some false
mdns_answer_check buffer size offset (suc records) query namebuffer =
    let rest : ℕ → Bytes → Option Bool =
      λ offset' namebuffer'. mdns_answer_check buffer size offset' records query namebuffer' in
    do
      skipped ← mdns_string_skip buffer size offset
      (let offset' = or_same offset skipped in
          if ltb size (offset' + 10) then some false else (do
            len ← mdns_ntohs buffer (offset' + 8)
            (if leb len (size - (offset' + 10))
                then check_record (rest (offset' + 10 + len)) buffer size (offset' + 10) len query
                    namebuffer
                else rest (offset' + 10 + len) namebuffer)))

-- the loop of `mdns_query_recv_internal` over the questions; `some none` is its early exit
unfoldable pub skip_questions : ℕ → Bytes → ℕ → ℕ → Option (Option ℕ)
skip_questions zero buffer size offset = some (some offset)
skip_questions (suc questions) buffer size offset =
    let rest : ℕ → Option (Option ℕ) = skip_questions questions buffer size in
    do
      skipped ← mdns_string_skip buffer size offset
      (elim skipped [ none ↦ some none | some offset' ↦ rest (offset' + 4) ])

-- `mdns_query_recv_internal` behind `zsock_recvfrom`, which has written the first `data_size`
-- bytes of the buffer; the result is whether the sender is a node
unfoldable pub mdns_query_recv_internal : Bytes → ℕ → Bytes → Bytes → Option Bool
unfolding skip_questions
mdns_query_recv_internal buffer data_size query namebuffer =
    if data_size == 0 then some false else (do
      questions ← mdns_ntohs buffer 4
      answer_rrs ← mdns_ntohs buffer 6
      start ← skip_questions questions buffer data_size 12
      (elim start [
        | none ↦ some false
        | some offset ↦ mdns_answer_check buffer data_size offset answer_rrs query namebuffer
      ]))
