-- ===== src/Mdns/Compressed.antt =====
-- src/mdns.c: how a name is read that ends in a reference, as the answers of other hosts use them.
use cc1352_firmware.Prelude.{
  ℕ, suc, ◌+◌, ◌-◌, ◌*◌, ◌≤◌, ◌<◌, ◌≡◌, refl, sym, ap, ◌∙◌, true, false, List, [], ◌∷◌, ◌++◌,
  append-nil, append_assoc, none, some, All, ◌==◌, bit_and, leb, ltb, arith, length, length-append,
  get_elem?, Bytes,
}
use cc1352_firmware.Prelude.Bits.{passes_under, passes_under-at}
use cc1352_firmware.Mdns.Memory.{◌>>=◌, mdns_ntohs}
use cc1352_firmware.Mdns.Substring.{
  mdns_is_string_ref, label_at, follow_ref, follow_refs, mdns_get_next_substring,
}
use cc1352_firmware.Mdns.Name.{copy_label, extract_from, mdns_string_extract}
use cc1352_firmware.Mdns.Query.{dot}
use cc1352_firmware.Mdns.Labels.{encode, dotted, count, IsLabel, mdns_is_string_ref-length}
use cc1352_firmware.Mdns.RoundTrip.{
  get_elem?-append, copy_label_encoded, extract_from-label, extract_from-encode,
}

-- labels without a root behind them
abbrev pub encode_labels : List Bytes → Bytes
encode_labels [] = []
encode_labels (l ∷ labels) = length l ∷ l ++ encode_labels labels

-- The two bytes are a reference to the place.
pub record IsReference (high low place : ℕ) : Type 0 where
  pub tagged : 192 ≤ high
  pub byte : high < 256
  pub refers : bit_and (256 * high + low) 0x3fff ≡ place

mdns_is_string_ref-tagged : (high : ℕ) → 192 ≤ high → high < 256 → mdns_is_string_ref high ≡ true
unfolding mdns_is_string_ref passes_under
mdns_is_string_ref-tagged high t b =
    let passed =
      passes_under-at (λ m. mdns_is_string_ref (192 + m)) 64 (high - 192) refl (omega arith) in
    let same : 192 + (high - 192) ≡ high = omega arith in ground (arith, passed, same)

get_elem?-suc :
    (pre : Bytes) (a b : ℕ) (rest : Bytes)
    → get_elem? (pre ++ a ∷ b ∷ rest) (suc (length pre)) ≡ some b
get_elem?-suc [] a b rest = refl
get_elem?-suc (x ∷ pre) a b rest = get_elem?-suc pre a b rest

-- A label behind a reference is read where the reference points.
module _ (buffer pre post pre' l rest : Bytes) (high low : ℕ)
    (here : buffer ≡ pre ++ high ∷ low ∷ post) (there : buffer ≡ pre' ++ length l ∷ (l ++ rest))
    (r : IsReference high low (length pre')) (h : IsLabel l) where
  target_label :
      follow_refs 15 buffer (length buffer) (length pre') true
      ≡ some (record { offset = some (length pre' + 1); length = length l; ref = true })
  unfolding follow_refs follow_ref label_at
  target_label =
      let at : get_elem? buffer (length pre') ≡ some (length l) =
        rw there (get_elem?-append pre' (length l) (l ++ rest)) in
      let size : length buffer ≡ length pre' + suc (length l + length rest) = rw there (
        length-append pre' (length l ∷ (l ++ rest))
        ∙ ap (λ n. length pre' + suc n) (length-append l rest)) in
      let is_label = mdns_is_string_ref-length (length l) h.1 in
      let fits : ltb (length buffer) (length pre' + 1 + length l) ≡ false = ground (arith, size) in
      rw (at, ◌>>=◌, is_label, fits) refl

  substring_reference :
      mdns_get_next_substring buffer (length buffer) (length pre)
      ≡ some (record { offset = some (length pre' + 1); length = length l; ref = true })
  unfolding mdns_get_next_substring follow_refs follow_ref mdns_ntohs
  substring_reference =
      let size : length buffer ≡ length pre + suc (suc (length post)) =
        rw here (length-append pre (high ∷ low ∷ post)) in
      let size' : length buffer ≡ length pre' + suc (length (l ++ rest)) =
        rw there (length-append pre' (length l ∷ (l ++ rest))) in
      let first : get_elem? buffer (length pre) ≡ some high =
        rw here (get_elem?-append pre high (low ∷ post)) in
      let next : length pre + 1 ≡ suc (length pre) = omega arith in
      let second : get_elem? buffer (suc (length pre)) ≡ some low =
        rw here (get_elem?-suc pre high low post) in
      let inside : leb (length buffer) (length pre) ≡ false = ground (arith, size) in
      let nonzero : (high == 0) ≡ false = ground (arith, r.tagged) in
      let is_ref = mdns_is_string_ref-tagged high r.tagged r.byte in
      let fits : ltb (length buffer) (length pre + 2) ≡ false = ground (arith, size) in
      let place : leb (length buffer) (length pre') ≡ false = ground (arith, size') in
      rw (inside, first, ◌>>=◌, nonzero, is_ref, fits, next, second, r.refers, place, target_label)
        refl

  extract_from-reference :
      (left capacity : ℕ) (str : Bytes)
      → length str + length l + 1 ≤ capacity
      → extract_from (suc left) buffer (length buffer) capacity (length pre) none str
        ≡ extract_from left buffer
            (length buffer)
            capacity
            (length pre' + 1 + length l)
            (some (length pre + 2))
            (str ++ l ++ dot ∷ [])
  unfolding extract_from
  extract_from-reference left capacity str room =
      let nonempty : (length l == 0) ≡ false = ground (arith, h.0) in
      let copied = copy_label_encoded pre' l rest capacity str h.0 room in
      let copied' : copy_label buffer capacity str (length pre' + 1) (length l)
          ≡ some (str ++ l ++ dot ∷ []) =
        rw there copied in
      rw (substring_reference, ◌>>=◌, copied', nonempty) refl

-- the labels in front of a reference
extract_from-encode_labels :
    (labels : List Bytes) (left capacity : ℕ) (buffer pre post str : Bytes)
    → buffer ≡ pre ++ (encode_labels labels ++ post)
    → All IsLabel labels
    → length str + length (dotted labels) ≤ capacity
    → extract_from (count labels + left) buffer (length buffer) capacity (length pre) none str
      ≡ extract_from left buffer
          (length buffer)
          capacity
          (length (pre ++ encode_labels labels))
          none
          (str ++ dotted labels)
extract_from-encode_labels [] left capacity buffer pre post str b h room =
    let z : 0 + left ≡ left = omega arith in rw (z, append-nil pre, append-nil str) refl
extract_from-encode_labels (l ∷ labels) left capacity buffer pre post str b h room =
    let rest = encode_labels labels ++ post in
    let same : buffer ≡ pre ++ length l ∷ (l ++ rest) =
      b ∙ ap (λ x. pre ++ length l ∷ x) (append_assoc l (encode_labels labels) post) in
    let n = length-append pre (length l ∷ l) in
    let d = length-append l (dot ∷ dotted labels) in
    let s = length-append (str ++ l) (dot ∷ []) in
    let t = length-append str l in
    let left' = count labels + left in
    let fuel : suc (count labels) + left ≡ suc left' = omega arith in
    let place : length pre + 1 + length l ≡ length (pre ++ length l ∷ l) = omega arith in
    let step : extract_from (suc left') buffer (length buffer) capacity (length pre) none str
        ≡ extract_from left' buffer (length buffer) capacity (length pre + 1 + length l) none
            (str ++ l ++ dot ∷ []) =
      rw same (extract_from-label left' capacity pre l rest str none h.0 (omega arith)) in
    let more =
      extract_from-encode_labels labels left capacity buffer (pre ++ length l ∷ l) post
        (str ++ l ++ dot ∷ []) (same ∙ sym (append_assoc pre (length l ∷ l) rest)) h.1
        (omega arith) in
    let name : str ++ l ++ dot ∷ [] ++ dotted labels ≡ str ++ (l ++ dot ∷ dotted labels) =
      append_assoc (str ++ l) (dot ∷ []) (dotted labels)
      ∙ append_assoc str l (dot ∷ dotted labels) in
    let stop : pre ++ length l ∷ l ++ encode_labels labels
        ≡ pre ++ length l ∷ (l ++ encode_labels labels) =
      append_assoc pre (length l ∷ l) (encode_labels labels) in
    let more' : extract_from left' buffer (length buffer) capacity (length pre + 1 + length l) none
          (str ++ l ++ dot ∷ [])
        ≡ extract_from left buffer (length buffer) capacity
            (length (pre ++ length l ∷ l ++ encode_labels labels)) none
            (str ++ l ++ dot ∷ [] ++ dotted labels) =
      rw place more in
    rw (fuel, ← name, ← stop) (step ∙ more')

dotted-append : (xs ys : List Bytes) → dotted (xs ++ ys) ≡ dotted xs ++ dotted ys
dotted-append [] ys = refl
dotted-append (x ∷ xs) ys =
    rw (dotted-append xs ys) (sym (append_assoc x (dot ∷ dotted xs) (dotted ys)))

-- A name at the end of `pre` that is some labels and a reference to a place where a name of labels
-- begins, at most 64 labels in all, is read into a buffer that is large enough as all the labels with
-- a dot behind each, and the offset is the one behind the reference. The labels are not empty, have
-- no dot and are shorter than 192 bytes.
pub mdns_string_extract-encode_labels :
    (labels : List Bytes) (l : Bytes) (tail : List Bytes) (high low : ℕ)
    (buffer pre post pre' post' : Bytes) (capacity : ℕ)
    → All IsLabel labels
    → All IsLabel (l ∷ tail)
    → buffer ≡ pre ++ (encode_labels labels ++ high ∷ low ∷ post)
    → buffer ≡ pre' ++ (encode (l ∷ tail) ++ post')
    → IsReference high low (length pre')
    → count labels + count (l ∷ tail) ≤ 64
    → length (dotted (labels ++ l ∷ tail)) ≤ capacity
    → mdns_string_extract buffer (length buffer) (length pre) capacity
      ≡ some (record {
        str = dotted (labels ++ l ∷ tail);
        length = length (dotted (labels ++ l ∷ tail));
        offset = some (length pre + length (encode_labels labels) + 2);
      })
unfolding mdns_string_extract
mdns_string_extract-encode_labels labels l tail high low buffer pre post pre' post' capacity h h'
      here there r few room =
    let left = 64 - count labels in
    let fuel : 65 ≡ count labels + suc left = omega arith in
    let all = dotted-append labels (l ∷ tail) in
    let total : length (dotted (labels ++ l ∷ tail))
        ≡ length (dotted labels) + (length l + suc (length (dotted tail))) =
      ap length all
      ∙ length-append (dotted labels) (dotted (l ∷ tail))
      ∙ ap (λ n. length (dotted labels) + n) (length-append l (dot ∷ dotted tail)) in
    let written = dotted labels ++ l ++ dot ∷ [] in
    let w = length-append (dotted labels ++ l) (dot ∷ []) in
    let w' = length-append (dotted labels) l in
    let p = length-append pre' (length l ∷ l) in
    let name : written ++ dotted tail ≡ dotted (labels ++ l ∷ tail) =
      append_assoc (dotted labels ++ l) (dot ∷ []) (dotted tail)
      ∙ append_assoc (dotted labels) l (dot ∷ dotted tail)
      ∙ sym all in
    let before = pre ++ encode_labels labels in
    let here' : buffer ≡ before ++ high ∷ low ∷ post =
      here ∙ sym (append_assoc pre (encode_labels labels) (high ∷ low ∷ post)) in
    let there' : buffer ≡ pre' ++ length l ∷ (l ++ (encode tail ++ post')) =
      there ∙ ap (λ x. pre' ++ length l ∷ x) (append_assoc l (encode tail) post') in
    let front =
      extract_from-encode_labels labels (suc left) capacity buffer pre (high ∷ low ∷ post) [] here h
        (omega arith) in
    let jump =
      extract_from-reference buffer before post pre' l (encode tail ++ post') high low here' there'
        r h'.0 left capacity (dotted labels) (omega arith) in
    let back =
      extract_from-encode tail left capacity buffer (pre' ++ length l ∷ l) post' written
        (length pre' + 1 + length l) (some (length before + 2))
        (there' ∙ sym (append_assoc pre' (length l ∷ l) (encode tail ++ post'))) (omega arith) h'.1
        (omega arith) (omega arith) in
    rw fuel (front ∙ jump ∙ back ∙ rw (name, length-append pre (encode_labels labels)) refl)
