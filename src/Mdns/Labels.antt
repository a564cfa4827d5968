-- ===== src/Mdns/Labels.antt =====
-- Names as lists of labels: what src/mdns.c takes, writes and reads of them.
use cc1352_firmware.Prelude.{
  ℕ, suc, ◌≤◌, ◌<◌, ◌≡◌, ◌≢◌, refl, false, List, [], ◌∷◌, ◌++◌, none, some, All, ==-ne, arith,
  length, Bytes, not,
}
use cc1352_firmware.Prelude.Bits.{passes_under, passes_under-at}
use cc1352_firmware.Mdns.Query.{dot, memchr}
use cc1352_firmware.Mdns.Substring.{mdns_is_string_ref}

-- the name with dots between its labels, as it is given
abbrev pub join : List Bytes → Bytes
join [] = []
join (l ∷ []) = l
join (l ∷ m ∷ labels) = l ++ dot ∷ join (m ∷ labels)

-- each label behind its length, and the root, as it is sent
abbrev pub encode : List Bytes → Bytes
encode [] = 0 ∷ []
encode (l ∷ labels) = length l ∷ l ++ encode labels

-- a dot behind each label, as it is read
abbrev pub dotted : List Bytes → Bytes
dotted [] = []
dotted (l ∷ labels) = l ++ dot ∷ dotted labels

abbrev pub count : List Bytes → ℕ
count [] = 0
count (l ∷ labels) = suc (count labels)

-- A label is not empty, has no dot, and its length is no reference.
abbrev pub IsLabel : Bytes → Type 0
IsLabel l = (1 ≤ length l) × (length l < 192) × All (λ b. b ≢ dot) l

pub memchr-none : (l : Bytes) → All (λ b. b ≢ dot) l → memchr dot l ≡ none
memchr-none [] h = refl
memchr-none (b ∷ l) h = rw (==-ne b dot h.0, memchr-none l h.1) refl

pub memchr-append :
    (l rest : Bytes) → All (λ b. b ≢ dot) l → memchr dot (l ++ dot ∷ rest) ≡ some (length l)
memchr-append [] rest h = refl
memchr-append (b ∷ l) rest h = rw (==-ne b dot h.0, memchr-append l rest h.1) refl

pub mdns_is_string_ref-length : (n : ℕ) → n < 192 → mdns_is_string_ref n ≡ false
unfolding mdns_is_string_ref passes_under
mdns_is_string_ref-length n h =
    let passed = passes_under-at (λ m. not (mdns_is_string_ref m)) 192 n refl h in
    ground (arith, passed)
