-- ===== src/Mdns/Checking.antt =====
-- src/mdns.c: which answers `mdns_answer_check` takes for a node.
use cc1352_firmware.Prelude.{
  ℕ, suc, ◌+◌, ◌-◌, ◌≤◌, ◌<◌, ◌≡◌, refl, ap, ◌∙◌, true, false, List, [], ◌∷◌, ◌++◌, append_assoc,
  none, some, All, ==_refl, leb, ltb, arith, length, length-append, drop, take-append, Bytes,
}
use cc1352_firmware.Mdns.Memory.{◌>>=◌, mdns_ntohs}
use cc1352_firmware.Mdns.Name.{Extracted, mdns_string_skip, mdns_string_extract}
use cc1352_firmware.Mdns.Answer.{
  mdns_ptr_name_size, bytes_eq, memcmp, expected, mdns_record_parse_ptr, is_wanted, check_record,
  mdns_answer_check,
}
use cc1352_firmware.Mdns.Labels.{encode, dotted, count, IsLabel}
use cc1352_firmware.Mdns.RoundTrip.{extract_from-encode}

bytes_eq_refl : (xs : Bytes) → bytes_eq xs xs ≡ true
bytes_eq_refl [] = refl
bytes_eq_refl (x ∷ xs) = rw (==_refl x, bytes_eq_refl xs) refl

is_wanted_lem :
    (query more tail : Bytes) → is_wanted query (expected ++ query ++ more ++ tail) ≡ some true
unfolding is_wanted memcmp
is_wanted_lem query more tail =
    let same : expected ++ query ++ more ++ tail ≡ expected ++ (query ++ (more ++ tail)) =
      append_assoc (expected ++ query) more tail ∙ append_assoc expected query (more ++ tail) in
    let n = length-append query (more ++ tail) in
    ap (is_wanted query) same
    ∙ (let fits : ltb (length (expected ++ (query ++ (more ++ tail)))) (0 + 7) ≡ false =
          ground (arith, n) in
        let room : ltb (length (expected ++ (query ++ (more ++ tail)))) (7 + length query) ≡ false =
          ground (arith, n) in
        rw (fits, ◌>>=◌, room, take-append query (more ++ tail), bytes_eq_refl query) refl)

-- What is known of the record at `offset`: its name ends at `name_end`, and its `len` bytes of
-- data, which begin ten bytes on, are in the message.
pub record IsRecord (buffer : Bytes) (offset name_end len : ℕ) : Type 0 where
  pub skipped : mdns_string_skip buffer (length buffer) offset ≡ some (some name_end)
  pub len_eq : mdns_ntohs buffer (name_end + 8) ≡ some len
  pub inside : name_end + 10 + len ≤ length buffer

module _ {buffer : Bytes} {offset name_end len : ℕ} (r : IsRecord buffer offset name_end len) where
  mdns_answer_check-record :
      (records : ℕ) (query namebuffer : Bytes)
      → mdns_answer_check buffer (length buffer) offset (suc records) query namebuffer
        ≡ check_record
            (mdns_answer_check buffer (length buffer) (name_end + 10 + len) records query)
            buffer
            (length buffer)
            (name_end + 10)
            len
            query
            namebuffer
  unfolding mdns_answer_check
  mdns_answer_check-record records query namebuffer =
      let header : ltb (length buffer) (name_end + 10) ≡ false = ground (arith, r.inside) in
      let whole : leb len (length buffer - (name_end + 10)) ≡ true = ground (arith, r.inside) in
      rw (r.skipped, ◌>>=◌, header, r.len_eq, whole) refl

  -- A record in the message with less than two bytes of data makes the check read through a null
  -- pointer.
  pub mdns_answer_check_null :
      (records : ℕ) (query namebuffer : Bytes)
      → len < 2
      → mdns_answer_check buffer (length buffer) offset (suc records) query namebuffer ≡ none
  unfolding check_record mdns_record_parse_ptr
  mdns_answer_check_null records query namebuffer h =
      let short : leb 2 len ≡ false = ground arith in
      mdns_answer_check-record records query namebuffer ∙ ground (arith, short, r.inside)

-- The check of `n` records at `start` comes to that of `records` records at `offset`: each record
-- in between is in the message, has at least two bytes of data, and is read and compared within
-- memory without being the one that is wanted.
pub data ComesTo (buffer query : Bytes) (offset records : ℕ) (namebuffer : Bytes)
    : ℕ → ℕ → Bytes → Type 0 where
  here : ComesTo buffer query offset records namebuffer offset records namebuffer
  behind :
      {start name_end len n : ℕ} {before : Bytes} {name : Extracted}
      → IsRecord buffer start name_end len
      → 2 ≤ len
      → mdns_string_extract buffer (length buffer) (name_end + 10) mdns_ptr_name_size ≡ some name
      → is_wanted query (name.str ++ drop (length name.str) before) ≡ some false
      → ComesTo buffer query offset records namebuffer
          (name_end + 10 + len)
          n
          (name.str ++ drop (length name.str) before)
      → ComesTo buffer query offset records namebuffer start (suc n) before

mdns_answer_check-ComesTo :
    {buffer query namebuffer : Bytes} {offset records start n : ℕ} {before : Bytes}
    → ComesTo buffer query offset records namebuffer start n before
    → mdns_answer_check buffer (length buffer) start n query before
      ≡ mdns_answer_check buffer (length buffer) offset records query namebuffer
unfolding check_record mdns_record_parse_ptr
mdns_answer_check-ComesTo here = refl
mdns_answer_check-ComesTo {buffer} {query}
      (behind {name_end = name_end} {len} {n} {before} {name} r l read other more) =
    let fits : leb (name_end + 10 + len) (length buffer) ≡ true = ground (arith, r.inside) in
    let long : leb 2 len ≡ true = ground arith in
    mdns_answer_check-record r n query before
    ∙ rw (fits, long, read, ◌>>=◌, other) (mdns_answer_check-ComesTo more)

module _ {buffer : Bytes} {offset name_end len : ℕ} (r : IsRecord buffer offset name_end len) where
  -- A record in the message whose data begins with a name of at most 64 labels, which reads as
  -- "zephyr.", the query and anything more in at most 100 bytes, is found, whatever follows it,
  -- where each record before it, from the first that is checked on, is in the message, has at least
  -- two bytes of data, and is read and compared within memory without being the one that is wanted.
  pub mdns_answer_check-found :
      (records start n : ℕ) (query namebuffer before : Bytes) (labels : List Bytes)
      (pre post more : Bytes)
      → ComesTo buffer query offset (suc records) namebuffer start n before
      → buffer ≡ pre ++ (encode labels ++ post)
      → name_end + 10 ≡ length pre
      → 2 ≤ len
      → All IsLabel labels
      → count labels ≤ 64
      → dotted labels ≡ expected ++ query ++ more
      → length (dotted labels) ≤ mdns_ptr_name_size
      → mdns_answer_check buffer (length buffer) start n query before ≡ some true
  unfolding check_record mdns_record_parse_ptr mdns_string_extract
  mdns_answer_check-found records start n query namebuffer before labels pre post more i b d l h c e
        f =
      let fits : leb (name_end + 10 + len) (length buffer) ≡ true = ground (arith, r.inside) in
      let long : leb 2 len ≡ true = ground arith in
      let read =
        extract_from-encode labels 65 mdns_ptr_name_size buffer pre post [] (name_end + 10) none b d
          h (omega arith) (omega arith) in
      let wanted = is_wanted_lem query more (drop (length (dotted labels)) namebuffer) in
      let named = ap (λ s. s ++ drop (length (dotted labels)) namebuffer) e in
      mdns_answer_check-ComesTo i
      ∙ mdns_answer_check-record r records query namebuffer
      ∙ rw (fits, long, read, ◌>>=◌, named, wanted) refl
