-- ===== src/Tests/Mdns.antt =====
-- Messages of DNS, and runs of src/mdns.c on them.
use cc1352_firmware.Prelude.{
  ℕ, ◌≡◌, refl, true, [], ◌∷◌, ◌++◌, none, some, length, Bytes, arith, replicate,
}
use cc1352_firmware.Mdns.Memory.{mdns_ntohs}
use cc1352_firmware.Mdns.Substring.{mdns_get_next_substring}
use cc1352_firmware.Mdns.Name.{mdns_string_skip, mdns_string_extract, skip_from, extract_from}
use cc1352_firmware.Mdns.Query.{dot, mdns_string_make, mdns_query_send, mdns_multiquery_send}
use cc1352_firmware.Mdns.Answer.{
  is_wanted, memcmp, mdns_answer_check, mdns_query_recv_internal, mdns_record_parse_ptr,
}
use cc1352_firmware.Mdns.Labels.{join, encode, dotted, IsLabel}
use cc1352_firmware.Mdns.Reading.{Skipped, Read, mdns_string_within}
use cc1352_firmware.Mdns.Agreement.{mdns_string_skip-mdns_string_extract}
use cc1352_firmware.Mdns.RoundTrip.{mdns_string_extract-mdns_string_make}
use cc1352_firmware.Mdns.Checking.{
  IsRecord, ComesTo, mdns_answer_check_null, mdns_answer_check-found,
}

-- "zephyr"
abbrev pub zephyr : Bytes
zephyr = 0x7a ∷ 0x65 ∷ 0x70 ∷ 0x68 ∷ 0x79 ∷ 0x72 ∷ []

-- "_gb"
abbrev gb : Bytes
gb = 0x5f ∷ 0x67 ∷ 0x62 ∷ []

-- a header of one answer, the name "a", type, class and lifetime, and the length of the data
abbrev pub answer_start : ℕ → Bytes
answer_start len =
    0 ∷ 0 ∷ 0x84 ∷ 0 ∷ 0 ∷ 0 ∷ 0 ∷ 1 ∷ 0 ∷ 0 ∷ 0 ∷ 0 ∷ 1 ∷ 0x61 ∷ 0 ∷ 0 ∷ 12 ∷ 0 ∷ 1 ∷ 0 ∷ 0 ∷ 0 ∷ 9
    ∷ 0 ∷ len ∷ []

abbrev node_answer : Bytes
node_answer = answer_start 12 ++ encode (zephyr ∷ gb ∷ [])

-- the name "a", type, class and lifetime, and the length of the data
abbrev record_start : ℕ → Bytes
record_start len = 1 ∷ 0x61 ∷ 0 ∷ 0 ∷ 12 ∷ 0 ∷ 1 ∷ 0 ∷ 0 ∷ 0 ∷ 9 ∷ 0 ∷ len ∷ []

-- a header of two answers, and one that names something else
abbrev other_answer : Bytes
other_answer =
    (0 ∷ 0 ∷ 0x84 ∷ 0 ∷ 0 ∷ 0 ∷ 0 ∷ 2 ∷ 0 ∷ 0 ∷ 0 ∷ 0 ∷ []) ++ record_start 5 ++ encode (gb ∷ [])

abbrev two_answers : Bytes
two_answers = other_answer ++ record_start 12 ++ encode (zephyr ∷ gb ∷ [])

abbrev after_other : Bytes
after_other = (0x5f ∷ 0x67 ∷ 0x62 ∷ 0x2e ∷ []) ++ replicate 96 0

abbrev empty_answer : Bytes
empty_answer = answer_start 0

-- a label, and then a reference back to a label
abbrev referring : Bytes
referring = 1 ∷ 0x61 ∷ 0 ∷ 1 ∷ 0x62 ∷ 0xc0 ∷ 0 ∷ []

zephyr-IsLabel : IsLabel zephyr
zephyr-IsLabel = (
  omega arith,
  omega arith,
  (
    (λ e. ground (arith, e)),
    (
      (λ e. ground (arith, e)),
      (
        (λ e. ground (arith, e)),
        ((λ e. ground (arith, e)), ((λ e. ground (arith, e)), ((λ e. ground (arith, e)), tt))),
      ),
    ),
  ),
)

gb-IsLabel : IsLabel gb
gb-IsLabel = (
  omega arith,
  omega arith,
  ((λ e. ground (arith, e)), ((λ e. ground (arith, e)), ((λ e. ground (arith, e)), tt))),
)

query_run :
    mdns_query_send (join (gb ∷ zephyr ∷ []))
    ≡ some (
        some (
          (0 ∷ 0 ∷ 0 ∷ 0 ∷ 0 ∷ 1 ∷ 0 ∷ 0 ∷ 0 ∷ 0 ∷ 0 ∷ 0 ∷ [])
          ++ encode (gb ∷ zephyr ∷ [])
          ++ 0 ∷ 12 ∷ 0 ∷ 1 ∷ []))
unfolding mdns_query_send mdns_multiquery_send
query_run = refl

recv_run : mdns_query_recv_internal node_answer 37 gb (replicate 100 0) ≡ some true
unfolding mdns_query_recv_internal mdns_answer_check mdns_ntohs mdns_string_skip skip_from
    mdns_get_next_substring mdns_record_parse_ptr mdns_string_extract extract_from
recv_run = refl

mdns_string_within_example :
    Skipped 7 3 (mdns_string_skip referring 7 3)
    × Read 7 3 10 (mdns_string_extract referring 7 3 10)
mdns_string_within_example = mdns_string_within referring 7 (omega arith) 3 10

read_back :
    mdns_string_extract referring 7 3 10
    ≡ some (record { str = 0x62 ∷ 0x2e ∷ 0x61 ∷ 0x2e ∷ []; length = 4; offset = some 7 })
unfolding mdns_string_extract extract_from mdns_get_next_substring
read_back = refl

mdns_string_skip-mdns_string_extract_example : mdns_string_skip referring 7 3 ≡ some (some 7)
mdns_string_skip-mdns_string_extract_example =
    mdns_string_skip-mdns_string_extract referring 7 (omega arith) 3 10
      (record { str = 0x62 ∷ 0x2e ∷ 0x61 ∷ 0x2e ∷ []; length = 4; offset = some 7 }) 7 read_back
      refl

mdns_string_extract-mdns_string_make_example :
    (written : Bytes) × (mdns_string_make (0 ∷ 0 ∷ []) 20 (join (zephyr ∷ gb ∷ []))
      ≡ some (some written))
    × (mdns_string_extract (written ++ 7 ∷ []) (length (written ++ 7 ∷ [])) 2 30
        ≡ some (record {
          str = dotted (zephyr ∷ gb ∷ []);
          length = length (dotted (zephyr ∷ gb ∷ []));
          offset = some (length written);
        }))
mdns_string_extract-mdns_string_make_example =
    mdns_string_extract-mdns_string_make zephyr (gb ∷ []) (0 ∷ 0 ∷ []) (7 ∷ []) 20 30
      (zephyr-IsLabel, (gb-IsLabel, tt)) (omega arith) (omega arith) (omega arith)

empty-IsRecord : IsRecord empty_answer 12 15 0
unfolding mdns_string_skip skip_from mdns_get_next_substring mdns_ntohs
empty-IsRecord = record { skipped = refl; len_eq = refl; inside = omega arith }

mdns_answer_check_null_example :
    mdns_answer_check empty_answer (length empty_answer) 12 1 gb (replicate 100 0) ≡ none
mdns_answer_check_null_example =
    mdns_answer_check_null empty-IsRecord 0 gb (replicate 100 0) (omega arith)

other-ComesTo : ComesTo two_answers gb 30 1 after_other 12 2 (replicate 100 0)
unfolding mdns_string_skip skip_from mdns_get_next_substring mdns_ntohs mdns_string_extract
    extract_from is_wanted memcmp
other-ComesTo =
    ComesTo.behind {name_end = 15} {len = 5}
      {name = record { str = 0x5f ∷ 0x67 ∷ 0x62 ∷ 0x2e ∷ []; length = 4; offset = some 30 }}
      (record { skipped = refl; len_eq = refl; inside = omega arith }) (omega arith) refl refl
      ComesTo.here

second-IsRecord : IsRecord two_answers 30 33 12
unfolding mdns_string_skip skip_from mdns_get_next_substring mdns_ntohs
second-IsRecord = record { skipped = refl; len_eq = refl; inside = omega arith }

mdns_answer_check-found_example :
    mdns_answer_check two_answers (length two_answers) 12 2 gb (replicate 100 0) ≡ some true
mdns_answer_check-found_example =
    mdns_answer_check-found second-IsRecord 0 12 2 gb after_other (replicate 100 0)
      (zephyr ∷ gb ∷ []) (other_answer ++ record_start 12) [] (dot ∷ []) other-ComesTo refl refl
      (omega arith) (zephyr-IsLabel, (gb-IsLabel, tt)) (omega arith) refl (omega arith)
