-- ===== src/Mdns/RoundTrip.antt =====
-- src/mdns.c: a name that was written is read back.
use cc1352_firmware.Prelude.{
  ℕ, zero, suc, ◌+◌, ◌-◌, ◌≤◌, ◌<◌, ◌≡◌, refl, sym, ap, ◌∙◌, true, false, List, [], ◌∷◌, ◌++◌,
  append-nil, append_assoc, Option, none, some, min, All, ◌==◌, leb, ltb, arith, length,
  length-append, drop, take-append, drop-append, get_elem?, Bytes,
}
use cc1352_firmware.Mdns.Memory.{◌>>=◌}
use cc1352_firmware.Mdns.Substring.{label_at, follow_ref, follow_refs, mdns_get_next_substring}
use cc1352_firmware.Mdns.Name.{end_of, end_or, copy_label, extract_from, mdns_string_extract}
use cc1352_firmware.Mdns.Query.{dot, mdns_string_make}
use cc1352_firmware.Mdns.Labels.{join, encode, dotted, count, IsLabel, mdns_is_string_ref-length}
use cc1352_firmware.Mdns.Writing.{mdns_string_make-encode}

pub get_elem?-append :
    (pre : Bytes) (b : ℕ) (rest : Bytes) → get_elem? (pre ++ b ∷ rest) (length pre) ≡ some b
get_elem?-append [] b rest = refl
get_elem?-append (x ∷ pre) b rest = get_elem?-append pre b rest

drop-past_append :
    (pre : Bytes) (b : ℕ) (rest : Bytes) → drop (length pre + 1) (pre ++ b ∷ rest) ≡ rest
drop-past_append pre b rest =
    rw (sym (length-append pre (b ∷ [])), sym (append_assoc pre (b ∷ []) rest))
      (drop-append (pre ++ b ∷ []) rest)

pub substring_label :
    (pre l rest : Bytes)
    → IsLabel l
    → mdns_get_next_substring
        (pre ++ length l ∷ (l ++ rest))
        (length (pre ++ length l ∷ (l ++ rest)))
        (length pre)
      ≡ some (record { offset = some (length pre + 1); length = length l; ref = false })
unfolding mdns_get_next_substring follow_refs follow_ref label_at
substring_label pre l rest h =
    let at = get_elem?-append pre (length l) (l ++ rest) in
    let n = length-append pre (length l ∷ (l ++ rest)) in
    let k = length-append l rest in
    let is_label = mdns_is_string_ref-length (length l) h.1 in
    let inside : leb (length (pre ++ length l ∷ (l ++ rest))) (length pre) ≡ false =
      ground (arith, n) in
    let nonempty : (length l == 0) ≡ false = ground (arith, h.0) in
    let fits : ltb (length (pre ++ length l ∷ (l ++ rest))) (length pre + 1 + length l) ≡ false =
      ground (arith, n, k) in
    rw (inside, at, ◌>>=◌, nonempty, is_label, fits) refl

substring_root :
    (pre rest : Bytes)
    → mdns_get_next_substring (pre ++ 0 ∷ rest) (length (pre ++ 0 ∷ rest)) (length pre)
      ≡ some (record { offset = some (length pre); length = 0; ref = false })
unfolding mdns_get_next_substring
substring_root pre rest =
    let at = get_elem?-append pre 0 rest in
    let n = length-append pre (0 ∷ rest) in
    let inside : leb (length (pre ++ 0 ∷ rest)) (length pre) ≡ false = ground (arith, n) in
    rw (inside, at, ◌>>=◌) refl

pub copy_label_encoded :
    (pre l rest : Bytes) (capacity : ℕ) (str : Bytes)
    → 1 ≤ length l
    → length str + length l + 1 ≤ capacity
    → copy_label (pre ++ length l ∷ (l ++ rest)) capacity str (length pre + 1) (length l)
      ≡ some (str ++ l ++ dot ∷ [])
unfolding copy_label
copy_label_encoded pre l rest capacity str h room =
    let n = length-append pre (length l ∷ (l ++ rest)) in
    let k = length-append l rest in
    let all : min (length l) (capacity - length str) ≡ length l = omega arith in
    let nonempty : (length l == 0) ≡ false = ground arith in
    let inside : ltb (length (pre ++ length l ∷ (l ++ rest))) (length pre + 1 + length l) ≡ false =
      ground arith in
    let space : ltb (length str + length l) capacity ≡ true = ground arith in
    rw
      (
        all,
        nonempty,
        inside,
        space,
        drop-past_append pre (length l) (l ++ rest),
        take-append l rest,
      )
      refl

end_of-same : (end : Option ℕ) (cur : ℕ) → end_of end false cur ≡ end
end_of-same (some e) cur = refl
end_of-same none cur = refl

-- one round of the reading, at a label
pub extract_from-label :
    (left capacity : ℕ) (pre l rest str : Bytes) (end : Option ℕ)
    → IsLabel l
    → length str + length l + 1 ≤ capacity
    → extract_from
        (suc left)
        (pre ++ length l ∷ (l ++ rest))
        (length (pre ++ length l ∷ (l ++ rest)))
        capacity
        (length pre)
        end
        str
      ≡ extract_from left
          (pre ++ length l ∷ (l ++ rest))
          (length (pre ++ length l ∷ (l ++ rest)))
          capacity
          (length pre + 1 + length l)
          end
          (str ++ l ++ dot ∷ [])
unfolding extract_from
extract_from-label left capacity pre l rest str end h room =
    let nonempty : (length l == 0) ≡ false = ground (arith, h.0) in
    rw
      (
        substring_label pre l rest h,
        ◌>>=◌,
        copy_label_encoded pre l rest capacity str h.0 room,
        nonempty,
        end_of-same end (length pre),
      )
      refl

extract_from-root :
    (left capacity : ℕ) (pre rest str : Bytes) (end : Option ℕ)
    → extract_from
        (suc left)
        (pre ++ 0 ∷ rest)
        (length (pre ++ 0 ∷ rest))
        capacity
        (length pre)
        end
        str
      ≡ some (record { str = str; length = length str; offset = some (end_or end (length pre)) })
unfolding extract_from copy_label
extract_from-root left capacity pre rest str end =
    let z : length pre + 0 ≡ length pre = omega arith in
    rw (substring_root pre rest, ◌>>=◌, z, end_of-same end (length pre)) refl

-- where a name ends whose last byte is at `n` - 1, unless a reference came before
abbrev pub end_at : Option ℕ → ℕ → ℕ
end_at (some e) n = e
end_at none n = n

end_or-end_at : (end : Option ℕ) (cur : ℕ) → end_or end cur ≡ end_at end (cur + 1)
end_or-end_at (some e) cur = refl
end_or-end_at none cur = refl

pub extract_from-encode :
    (labels : List Bytes) (left capacity : ℕ) (buffer pre post str : Bytes) (cur : ℕ)
    (end : Option ℕ)
    → buffer ≡ pre ++ (encode labels ++ post)
    → cur ≡ length pre
    → All IsLabel labels
    → count labels < left
    → length str + length (dotted labels) ≤ capacity
    → extract_from left buffer (length buffer) capacity cur end str
      ≡ some (record {
        str = str ++ dotted labels;
        length = length (str ++ dotted labels);
        offset = some (end_at end (cur + length (encode labels)));
      })
extract_from-encode labels zero capacity buffer pre post str cur end b c h f room =
    absurd (omega arith)
extract_from-encode [] (suc left) capacity buffer pre post str cur end b c h f room =
    rw (b, c, append-nil str, ← end_or-end_at end (length pre))
      (extract_from-root left capacity pre post str end)
extract_from-encode (l ∷ labels) (suc left) capacity buffer pre post str cur end b c h f room =
    let rest = encode labels ++ post in
    let same : buffer ≡ pre ++ length l ∷ (l ++ rest) =
      b ∙ ap (λ x. pre ++ length l ∷ x) (append_assoc l (encode labels) post) in
    let n = length-append pre (length l ∷ l) in
    let d = length-append l (dot ∷ dotted labels) in
    let s = length-append (str ++ l) (dot ∷ []) in
    let t = length-append str l in
    let step : extract_from (suc left) buffer (length buffer) capacity cur end str
        ≡ extract_from left buffer (length buffer) capacity (length pre + 1 + length l) end
            (str ++ l ++ dot ∷ []) =
      rw (same, c) (extract_from-label left capacity pre l rest str end h.0 (omega arith)) in
    let more =
      extract_from-encode labels left capacity buffer (pre ++ length l ∷ l) post
        (str ++ l ++ dot ∷ []) (length pre + 1 + length l) end
        (same ∙ sym (append_assoc pre (length l ∷ l) rest)) (omega arith) h.1 (omega arith)
        (omega arith) in
    let name : str ++ l ++ dot ∷ [] ++ dotted labels ≡ str ++ (l ++ dot ∷ dotted labels) =
      append_assoc (str ++ l) (dot ∷ []) (dotted labels)
      ∙ append_assoc str l (dot ∷ dotted labels) in
    let e = length-append l (encode labels) in
    let stop : length pre + 1 + length l + length (encode labels)
        ≡ cur + suc (length (l ++ encode labels)) =
      omega arith in
    step ∙ more ∙ rw (name, stop) refl

-- A name of labels that are not empty, have no dot and are shorter than 192 bytes, at most 64 of
-- them, is written where there is room. Read from the place where it was written, into a buffer
-- that is large enough, and whatever follows in the message, it gives the labels with a dot behind
-- each, and the offset behind the name.
pub mdns_string_extract-mdns_string_make :
    (l : Bytes) (labels : List Bytes) (buffer post : Bytes) (room capacity : ℕ)
    → All IsLabel (l ∷ labels)
    → count (l ∷ labels) ≤ 64
    → length buffer + length (encode (l ∷ labels)) ≤ room
    → length (dotted (l ∷ labels)) ≤ capacity
    → (written : Bytes) × (mdns_string_make buffer room (join (l ∷ labels)) ≡ some (some written))
      × (mdns_string_extract (written ++ post) (length (written ++ post)) (length buffer) capacity
          ≡ some (record {
            str = dotted (l ∷ labels);
            length = length (dotted (l ∷ labels));
            offset = some (length written);
          }))
unfolding mdns_string_extract
mdns_string_extract-mdns_string_make l labels buffer post room capacity h f r c =
    let written = buffer ++ encode (l ∷ labels) in
    (
      written,
      mdns_string_make-encode l labels buffer room h r,
      rw (length-append buffer (encode (l ∷ labels))) (
          extract_from-encode (l ∷ labels) 65 capacity (written ++ post) buffer post []
            (length buffer) none (append_assoc buffer (encode (l ∷ labels)) post) refl h
            (omega arith) (omega arith)),
    )
