-- ===== src/Prelude/Every.antt =====
-- What holds of every element of a list, and of every live object.
use Prim.Native.Nat.{ℕ, zero, suc}
use mathlib.Core.List.{List, [], ◌∷◌}
use mathlib.Core.Option.{some, some-injective}
use mathlib.Core.Path.{◌≡◌, subst}
use mathlib.Core.Logic.{inl, inr}
use native.Mathlib.Omega.{arith}
use cc1352_firmware.Prelude.Tests.{◌==◌, Bool-cases}
use cc1352_firmware.Prelude.Lists.{All, set, take, get_elem?}
use cc1352_firmware.Prelude.Assoc.{lookup, remove}

module _ {A : Type 0} (P : A → Type 0) where
  pub All-set : (xs : List A) (i : ℕ) (v : A) → All P xs → P v → All P (set xs i v)
  All-set [] i v h p = tt
  All-set (x ∷ xs) zero v h p = (p, h.1)
  All-set (x ∷ xs) (suc i) v h p = (h.0, All-set xs i v h.1 p)

  pub All-take : (n : ℕ) (xs : List A) → All P xs → All P (take n xs)
  All-take zero xs h = tt
  All-take (suc n) [] h = tt
  All-take (suc n) (x ∷ xs) h = (h.0, All-take n xs h.1)

  pub All-get_elem? : (xs : List A) (i : ℕ) (a : A) → All P xs → get_elem? xs i ≡ some a → P a
  All-get_elem? [] i a h e = absurd (ground (arith, e))
  All-get_elem? (x ∷ xs) zero a h e = subst P (some-injective _ _ e) h.0
  All-get_elem? (x ∷ xs) (suc i) a h e = All-get_elem? xs i a h.1 e

pub All-lookup :
    {A : Type 0} (P : ℕ × A → Type 0) (Q : A → Type 0) (p : ℕ) (a : A) (m : List (ℕ × A))
    → ((q : ℕ) (b : A) → P (q, b) → Q b)
    → All P m
    → lookup p m ≡ some a
    → Q a
All-lookup P Q p a [] f h e = absurd (ground (arith, e))
All-lookup P Q p a ((q, b) ∷ m) f h e = elim (Bool-cases (q == p)) [
  | inl here ↦ subst Q (some-injective _ _ (rw here at e)) (f q b h.0)
  | inr past ↦ All-lookup P Q p a m f h.1 (rw past at e)
]

pub All-remove :
    {A : Type 0} (P : ℕ × A → Type 0) (p : ℕ) (m : List (ℕ × A)) → All P m → All P (remove p m)
All-remove P p [] h = tt
All-remove P p ((q, b) ∷ m) h = elim (Bool-cases (q == p)) [
  | inl here ↦ rw here h.1
  | inr past ↦ rw past (h.0, All-remove P p m h.1)
]
