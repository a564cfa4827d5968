-- ===== src/Mdns/Writing.antt =====
-- src/mdns.c: a name is written as its labels.
use cc1352_firmware.Prelude.{
  take_all, ℕ, zero, suc, ◌+◌, ◌-◌, ◌%◌, ◌≤◌, ◌<◌, ◌≡◌, ◌≢◌, refl, sym, ap, ◌∙◌, false, List, [],
  ◌∷◌, ◌++◌, append-nil, append_assoc, Option, none, some, All, ◌==◌, leb, arith, length,
  length-append, drop, take-append, drop-append, get_elem?, ==-ne, Bytes,
}
use mathlib.Core.Option
use cc1352_firmware.Mdns.Query.{
  dot, memchr, mdns_string_find, end_or_at, behind, make_from, mdns_string_make,
}
use cc1352_firmware.Mdns.Memory.{◌>>=◌}
use cc1352_firmware.Mdns.Labels.{join, encode, IsLabel, memchr-none, memchr-append}

-- The suffix `s` of the name begins at `last_pos`.
pub record IsRest (name s : Bytes) (last_pos : ℕ) : Type 0 where
  pub before : Bytes
  pub name_eq : name ≡ before ++ s
  pub last_eq : last_pos ≡ length before

module _ {name s : Bytes} {last_pos : ℕ} (r : IsRest name s last_pos) where
  length-IsRest : length name ≡ last_pos + length s
  length-IsRest = rw (r.name_eq, r.last_eq) (length-append r.before s)

  drop-IsRest : drop last_pos name ≡ s
  drop-IsRest = rw (r.name_eq, r.last_eq) (drop-append r.before s)

  mdns_string_find-IsRest :
      (c : ℕ)
      → 1 ≤ length s
      → mdns_string_find name (length name) c last_pos ≡ Option.map (λ i. last_pos + i) (memchr c s)
  unfolding mdns_string_find
  mdns_string_find-IsRest c h =
      let l = length-IsRest in
      let all = take_all s (length name - last_pos) (omega arith) in
      let inside : leb (length name) last_pos ≡ false = ground (arith, l) in
      rw (inside, drop-IsRest, all) refl

  IsRest-behind : (l rest : Bytes) → s ≡ l ++ rest → IsRest name rest (last_pos + length l)
  IsRest-behind l rest e = record {
    before = r.before ++ l;
    name_eq = r.name_eq ∙ ap (λ x. r.before ++ x) e ∙ sym (append_assoc r.before l rest);
    last_eq = rw (length-append r.before l, r.last_eq) refl;
  }

make_from-end :
    (fuel : ℕ) (buffer : Bytes) (capacity : ℕ) (name : Bytes) (length' last_pos : ℕ)
    → length' ≤ last_pos
    → length buffer < capacity
    → make_from fuel buffer capacity name length' last_pos ≡ some (buffer ++ 0 ∷ [])
unfolding make_from
make_from-end zero buffer capacity name length' last_pos h room = ground arith
make_from-end (suc fuel) buffer capacity name length' last_pos h room = ground arith

-- A label at `last_pos` is written when there is room for it and one byte more.
make_from-label :
    (fuel : ℕ) (buffer : Bytes) (capacity : ℕ) (name l rest : Bytes) (last_pos : ℕ)
    (found : Option ℕ)
    → IsRest name (l ++ rest) last_pos
    → IsLabel l
    → length buffer + length l + 2 ≤ capacity
    → memchr dot (l ++ rest) ≡ found
    → end_or_at (length name) (Option.map (λ i. last_pos + i) found) ≡ last_pos + length l
    → make_from (suc fuel) buffer capacity name (length name) last_pos
      ≡ make_from fuel
          (buffer ++ length l ∷ l)
          capacity
          name
          (length name)
          (behind (length name) (Option.map (λ i. last_pos + i) found))
unfolding make_from
make_from-label fuel buffer capacity name l rest last_pos found r h room m e =
    let n = length-IsRest r in
    let k = length-append l rest in
    let inside : leb (length name) last_pos ≡ false = ground (arith, n, k, h.0) in
    let fits : leb (capacity - length buffer) (length l + 1) ≡ false = ground (arith, room) in
    let sub : last_pos + length l - last_pos ≡ length l = omega arith in
    let byte : length l % 256 ≡ length l = omega (arith, h.1) in
    rw
      (
        mdns_string_find-IsRest r dot (omega (arith, h.0)),
        m,
        e,
        sub,
        byte,
        drop-IsRest r,
        take-append l rest,
        inside,
        fits,
      )
      refl

pub make_from-encode :
    (labels : List Bytes) (fuel : ℕ) (buffer : Bytes) (capacity : ℕ) (name : Bytes) (last_pos : ℕ)
    → IsRest name (join labels) last_pos
    → All IsLabel labels
    → length buffer + length (encode labels) ≤ capacity
    → length (join labels) ≤ fuel
    → make_from fuel buffer capacity name (length name) last_pos ≡ some (buffer ++ encode labels)
make_from-encode [] fuel buffer capacity name last_pos r h room f =
    make_from-end fuel buffer capacity name (length name) last_pos (omega (arith, length-IsRest r))
      (omega arith)
make_from-encode (l ∷ []) zero buffer capacity name last_pos r h room f =
    absurd (omega (arith, h.0.0))
make_from-encode (l ∷ []) (suc fuel) buffer capacity name last_pos r h room f =
    let n = length-append l (0 ∷ []) in
    let a = append-nil l in
    let r' : IsRest name (l ++ []) last_pos = rw a r in
    make_from-label fuel buffer capacity name l [] last_pos none r' h.0 (omega arith)
      (rw a (memchr-none l h.0.2)) (omega (arith, length-IsRest r))
    ∙ make_from-end fuel (buffer ++ length l ∷ l) capacity name (length name) (length name)
        (omega arith) (omega (arith, length-append buffer (length l ∷ l)))
    ∙ ap some (append_assoc buffer (length l ∷ l) (0 ∷ []))
make_from-encode (l ∷ m ∷ labels) zero buffer capacity name last_pos r h room f =
    absurd (omega (arith, length-append l (dot ∷ join (m ∷ labels))))
make_from-encode (l ∷ m ∷ labels) (suc fuel) buffer capacity name last_pos r h room f =
    let j = join (m ∷ labels) in
    let rest = IsRest-behind (IsRest-behind r l (dot ∷ j) refl) (dot ∷ []) j refl in
    let n = length-append l (dot ∷ j) in
    let k = length-append l (encode (m ∷ labels)) in
    let b = length-append buffer (length l ∷ l) in
    make_from-label fuel buffer capacity name l (dot ∷ j) last_pos (some (length l)) r h.0
      (omega arith) (memchr-append l j h.0.2) refl
    ∙ make_from-encode (m ∷ labels) fuel (buffer ++ length l ∷ l) capacity name
        (last_pos + length l + 1) rest h.1 (omega arith) (omega arith)
    ∙ ap some (append_assoc buffer (length l ∷ l) (encode (m ∷ labels)))

abbrev EndsOtherThan : ℕ → Bytes → Type 0
EndsOtherThan c s =
    (i : ℕ) × (suc i ≡ length s) × ((b : ℕ) × (get_elem? s i ≡ some b) × ((b == c) ≡ false))

EndsOtherThan-append : (c : ℕ) (xs ys : Bytes) → EndsOtherThan c ys → EndsOtherThan c (xs ++ ys)
EndsOtherThan-append c [] ys e = e
EndsOtherThan-append c (x ∷ xs) ys e =
    let (i, n, rest) = EndsOtherThan-append c xs ys e in (suc i, ap suc n, rest)

EndsOtherThan-label : (l : Bytes) → 1 ≤ length l → All (λ b. b ≢ dot) l → EndsOtherThan dot l
EndsOtherThan-label [] h a = absurd (omega arith)
EndsOtherThan-label (b ∷ []) h a = (0, refl, (b, refl, ==-ne b dot a.0))
EndsOtherThan-label (b ∷ c ∷ l) h a =
    let (i, n, rest) = EndsOtherThan-label (c ∷ l) (omega arith) a.1 in (suc i, ap suc n, rest)

EndsOtherThan-join :
    (l : Bytes) (labels : List Bytes)
    → All IsLabel (l ∷ labels)
    → EndsOtherThan dot (join (l ∷ labels))
EndsOtherThan-join l [] h = EndsOtherThan-label l h.0.0 h.0.2
EndsOtherThan-join l (m ∷ labels) h =
    let (i, n, rest) = EndsOtherThan-join m labels h.1 in
    EndsOtherThan-append dot l (dot ∷ join (m ∷ labels)) (suc i, ap suc n, rest)

pub mdns_string_make-encode :
    (l : Bytes) (labels : List Bytes) (buffer : Bytes) (capacity : ℕ)
    → All IsLabel (l ∷ labels)
    → length buffer + length (encode (l ∷ labels)) ≤ capacity
    → mdns_string_make buffer capacity (join (l ∷ labels))
      ≡ some (some (buffer ++ encode (l ∷ labels)))
unfolding mdns_string_make
mdns_string_make-encode l labels buffer capacity h room =
    let name = join (l ∷ labels) in
    let (i, n, (b, e, ne)) = EndsOtherThan-join l labels h in
    let nonempty : (length name == 0) ≡ false = ground (arith, n) in
    let at : length name - 1 ≡ i = omega (arith, n) in
    let whole : IsRest name name 0 = record { before = []; name_eq = refl; last_eq = refl } in
    let written =
      make_from-encode (l ∷ labels) (length name) buffer capacity name 0 whole h room
        (omega arith) in
    rw (nonempty, at, e, ◌>>=◌, ne, written) refl
