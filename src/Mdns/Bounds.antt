-- ===== src/Mdns/Bounds.antt =====
-- src/mdns.c: a name is read within its message, and its reading ends.
use cc1352_firmware.Prelude.{
  ℕ, zero, suc, ◌+◌, ◌*◌, ◌≤◌, ◌<◌, ◌≡◌, ◌≢◌, inl, inr, Bool, true, false, Option, some, bit_and,
  leb, ltb, ◌==◌, arith, Bool-cases, length, get_elem?, get_elem?_lt, Bytes,
}
use cc1352_firmware.Mdns.Memory.{mdns_ntohs}
use cc1352_firmware.Mdns.Substring.{
  StringPair, invalid_pair, mdns_is_string_ref, label_at, follow_ref, follow_refs,
  mdns_get_next_substring,
}

-- What the reading of one label at `cur` gives.
pub data Label (size cur : ℕ) (r : Option StringPair) : Type 0 where
  refused : (ref : Bool) → r ≡ some (invalid_pair ref) → Label size cur r
  root :
      cur < size
      → r ≡ some (record { offset = some cur; length = 0; ref = false })
      → Label size cur r
  label :
      (n : ℕ)
      → n ≢ 0
      → cur + 1 + n ≤ size
      → r ≡ some (record { offset = some (cur + 1); length = n; ref = false })
      → Label size cur r
  referred :
      (o n : ℕ)
      → cur + 2 ≤ size
      → o + n ≤ size
      → r ≡ some (record { offset = some o; length = n; ref = true })
      → Label size cur r

-- What the loop gives behind a reference at `cur`.
pub data Target (size : ℕ) (r : Option StringPair) : Type 0 where
  nowhere : (ref : Bool) → r ≡ some (invalid_pair ref) → Target size r
  target :
      (o n : ℕ)
      → o + n ≤ size
      → r ≡ some (record { offset = some o; length = n; ref = true })
      → Target size r

-- What one round of the loop at `offset` gives.
data Round (buffer : Bytes) (size offset : ℕ) (ref : Bool) (next : ℕ → Option StringPair)
    (r : Option StringPair) : Type 0 where
  stop : r ≡ some (invalid_pair ref) → Round buffer size offset ref next r
  go : (t : ℕ) → t < size → offset + 2 ≤ size → r ≡ next t → Round buffer size offset ref next r
  found :
      (n : ℕ)
      → get_elem? buffer offset ≡ some n
      → offset + 1 + n ≤ size
      → r ≡ some (record { offset = some (offset + 1); length = n; ref = ref })
      → Round buffer size offset ref next r

module _ (buffer : Bytes) (size : ℕ) (h : size ≤ length buffer) where
  follow_ref-Round :
      (next : ℕ → Option StringPair) (offset : ℕ) (ref : Bool)
      → offset < size
      → Round buffer size offset ref next (follow_ref next buffer size offset ref)
  unfolding follow_ref label_at mdns_ntohs
  follow_ref-Round next offset ref l =
      let (b, e) = get_elem?_lt buffer offset (omega arith) in
      elim (Bool-cases (mdns_is_string_ref b)) [
        | inl is_ref ↦ elim (Bool-cases (ltb size (offset + 2))) [
          | inl short ↦ Round.stop (ground (arith, e, is_ref, short))
          | inr fits ↦
              let (c, f) = get_elem?_lt buffer (offset + 1) (ground (arith, fits)) in
              elim (Bool-cases (leb size (bit_and (256 * b + c) 0x3fff))) [
                | inl outside ↦ Round.stop (ground (arith, e, is_ref, fits, f, outside))
                | inr inside ↦
                    Round.go (bit_and (256 * b + c) 0x3fff) (ground (arith, inside))
                      (ground (arith, fits)) (ground (arith, e, is_ref, fits, f, inside))
              ]
        ]
        | inr is_label ↦ elim (Bool-cases (ltb size (offset + 1 + b))) [
          | inl long ↦ Round.stop (ground (arith, e, is_label, long))
          | inr fits ↦ Round.found b e (ground (arith, fits)) (ground (arith, e, is_label, fits))
        ]
      ]

  -- Behind a reference the loop ends at a label, or nowhere.
  follow_refs-Target :
      (left offset : ℕ) → offset < size → Target size (follow_refs left buffer size offset true)
  unfolding follow_refs
  follow_refs-Target zero offset l =
      elim (follow_ref-Round (λ target. some (invalid_pair true)) offset true l) [
        | Round.stop e ↦ Target.nowhere true e
        | Round.go t lt fits e ↦ Target.nowhere true e
        | Round.found n at fits e ↦ Target.target (offset + 1) n fits e
      ]
  follow_refs-Target (suc left) offset l =
      elim (follow_ref-Round (λ t. follow_refs left buffer size t true) offset true l) [
        | Round.stop e ↦ Target.nowhere true e
        | Round.go t lt fits e ↦ rw e (follow_refs-Target left t lt)
        | Round.found n at fits e ↦ Target.target (offset + 1) n fits e
      ]

  referred-Label :
      (cur : ℕ) (r : Option StringPair) → cur + 2 ≤ size → Target size r → Label size cur r
  referred-Label cur r fits t = elim t [
    | Target.nowhere ref e ↦ Label.refused ref e
    | Target.target o n inside e ↦ Label.referred o n fits inside e
  ]

  pub mdns_get_next_substring-Label :
      (cur : ℕ) → Label size cur (mdns_get_next_substring buffer size cur)
  unfolding mdns_get_next_substring follow_refs
  mdns_get_next_substring-Label cur = elim (Bool-cases (leb size cur)) [
    | inl outside ↦ Label.refused false (ground (arith, outside))
    | inr inside ↦
        let l : cur < size = ground (arith, inside) in
        let (b, e) = get_elem?_lt buffer cur (omega arith) in
        elim (Bool-cases (b == 0)) [
          | inl is_root ↦ Label.root l (ground (arith, inside, e, is_root))
          | inr is_label ↦
              let same : mdns_get_next_substring buffer size cur
                  ≡ follow_refs 16 buffer size cur false =
                ground (arith, inside, e, is_label) in
              rw same
                (elim (follow_ref-Round (λ t. follow_refs 15 buffer size t true) cur false l) [
                  | Round.stop s ↦ Label.refused false s
                  | Round.go t lt fits s ↦
                      rw s (referred-Label cur _ fits (follow_refs-Target 15 t lt))
                  | Round.found n at fits s ↦ Label.label n (ground (arith, e, at, is_label)) fits s
                ])
        ]
  ]
