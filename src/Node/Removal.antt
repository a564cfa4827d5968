-- ===== src/Node/Removal.antt =====
-- src/node.c: the cache of nodes without one of them.
use cc1352_firmware.Prelude.{
  ℕ, zero, suc, ◌-◌, ◌<◌, ◌≡◌, ◌⊎◌, inl, inr, refl, ap, Bool, true, List, [], ◌∷◌, none, some,
  Option-cases, Bool-cases, ◌==◌, arith, length, take, set, get_elem?, get_elem?-some_lt,
  get_elem?_lt,
}
use mathlib.Core.List.{Perm}
use mathlib.Core.List.Perm
use cc1352_firmware.System.World.{NodeItem}
use cc1352_firmware.Node.Cache.{
  find_index, node_cache_find_by_id, node_cache_remove_at, node_cache_remove_by_id,
}

pub find_index-some :
    {A : Type 0} (test : A → Bool) (xs : List A) (at : ℕ)
    → find_index test xs ≡ some at
    → (x : A) × (get_elem? xs at ≡ some x) × (test x ≡ true)
find_index-some test [] at h = absurd (ground (arith, h))
find_index-some test (x ∷ xs) at h = elim (Bool-cases (test x)) [
  | inl passes ↦ let e : at ≡ 0 = ground (arith, h, passes) in (x, rw e refl, passes)
  | inr fails ↦ elim (Option-cases (find_index test xs)) [
    | inl nowhere ↦ absurd (ground (arith, h, fails, nowhere))
    | inr (i, there) ↦
        let e : at ≡ suc i = ground (arith, h, fails, there) in
        let (y, g, t) = find_index-some test xs i there in (y, rw e g, t)
  ]
]

module _ {A : Type 0} where
  pub same_element : {x y : A} → some x ≡ some y → x ≡ y
  same_element {x} e = ap (λ o. elim o [ none ↦ x | some z ↦ z ]) e

  -- a list is its last element and those before
  Perm-last :
      (xs : List A) (i : ℕ) (x : A)
      → get_elem? xs i ≡ some x
      → suc i ≡ length xs
      → Perm xs (x ∷ take i xs)
  Perm-last [] i x h l = absurd (omega arith)
  Perm-last (y ∷ []) zero x h l = rw (same_element h) Perm.rfl
  Perm-last (y ∷ z ∷ xs) zero x h l = absurd (omega arith)
  Perm-last (y ∷ xs) (suc i) x h l =
      Perm.trans (Perm.cons y (Perm-last xs i x h (omega arith))) (Perm.swap x y _)

  -- writing the last element over another removes that one
  Perm-set_last :
      (xs : List A) (at i : ℕ) (x last : A)
      → get_elem? xs at ≡ some x
      → get_elem? xs i ≡ some last
      → suc i ≡ length xs
      → at < i
      → Perm xs (x ∷ take i (set xs at last))
  Perm-set_last [] at i x last h g l m = absurd (omega arith)
  Perm-set_last (y ∷ xs) at zero x last h g l m = absurd (omega arith)
  Perm-set_last (y ∷ xs) zero (suc i) x last h g l m =
      rw (same_element h) (Perm.cons x (Perm-last xs i last g (omega arith)))
  Perm-set_last (y ∷ xs) (suc at) (suc i) x last h g l m =
      Perm.trans (Perm.cons y (Perm-set_last xs at i x last h g (omega arith) (omega arith)))
        (Perm.swap x y _)

pub node_cache_remove_at-Perm :
    (cache : List NodeItem) (at : ℕ) (item : NodeItem)
    → get_elem? cache at ≡ some item
    → Perm cache (item ∷ node_cache_remove_at cache at)
unfolding node_cache_remove_at
node_cache_remove_at-Perm cache at item h =
    let l = get_elem?-some_lt cache at h in
    let (last, g) = get_elem?_lt cache (length cache - 1) (omega (arith, l)) in
    elim (Bool-cases (at == length cache - 1)) [
      | inl is_last ↦
          let e : length cache - 1 ≡ at = ground (arith, is_last) in
          rw is_last (Perm-last cache (length cache - 1) item (rw e h) (omega (arith, l)))
      | inr before ↦
          rw (before, g)
            (Perm-set_last cache at (length cache - 1) item last h g (omega (arith, l))
              (ground (arith, l, before)))
    ]

-- Removing an id from the cache either finds no item with it and changes nothing, or takes out one
-- item with that id: the cache is a permutation of this item and of what is left.
node_cache_remove_by_id_lem :
    (cache : List NodeItem) (id : ℕ)
    → ((node_cache_find_by_id cache id ≡ none) × (node_cache_remove_by_id cache id ≡ cache))
      ⊎ ((item : NodeItem) × (item.id ≡ id) × Perm cache (item ∷ node_cache_remove_by_id cache id))
unfolding node_cache_remove_by_id
node_cache_remove_by_id_lem cache id = elim (Option-cases (node_cache_find_by_id cache id)) [
  | inl nowhere ↦ inl (nowhere, rw (node_cache_remove_by_id, nowhere) refl)
  | inr (at, there) ↦
      let (item, g, t) = find_index-some (λ (n : NodeItem). n.id == id) cache at there in
      inr (
        item,
        ground (arith, t),
        rw (node_cache_remove_by_id, there) (node_cache_remove_at-Perm cache at item g),
      )
]
