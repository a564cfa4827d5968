-- ===== src/Prelude/Assoc.antt =====
-- Memory as a list of the live objects with their addresses.
use Prim.Native.Nat.{ℕ}
use mathlib.Core.List.{List, [], ◌∷◌}
use mathlib.Core.Option.{Option, none, some}
use mathlib.Core.Path.{◌≡◌, refl, sym, ap, ◌∙◌}
use mathlib.Core.Logic.{◌≢◌, inl, inr}
use cc1352_firmware.Prelude.Tests.{◌==◌, ==-ne, ==_iff, Bool-cases, if◌then◌else◌}

module _ {A : Type 0} where
  abbrev pub lookup : ℕ → List (ℕ × A) → Option A
  lookup p [] = none
  lookup p ((q, a) ∷ m) = if q == p then some a else lookup p m

  -- the object at `p` written anew; nothing where none is live
  abbrev pub update : ℕ → A → List (ℕ × A) → List (ℕ × A)
  update p a [] = []
  update p a ((q, b) ∷ m) = if q == p then (q, a) ∷ m else (q, b) ∷ update p a m

  abbrev pub remove : ℕ → List (ℕ × A) → List (ℕ × A)
  remove p [] = []
  remove p ((q, b) ∷ m) = if q == p then m else (q, b) ∷ remove p m

  -- No address has two live objects.
  abbrev pub IsSimple : List (ℕ × A) → Type 0
  IsSimple [] = Unit
  IsSimple ((q, b) ∷ m) = (lookup q m ≡ none) × IsSimple m

  pub lookup_here : (p : ℕ) (a : A) (m : List (ℕ × A)) → lookup p ((p, a) ∷ m) ≡ some a
  lookup_here p a m = rw ((==_iff p p).1 refl) refl

  pub lookup_past :
      (p q : ℕ) (a : A) (m : List (ℕ × A)) → q ≢ p → lookup p ((q, a) ∷ m) ≡ lookup p m
  lookup_past p q a m ne = rw (==-ne q p ne) refl

  pub lookup-remove_ne : (p q : ℕ) (m : List (ℕ × A)) → p ≢ q → lookup q (remove p m) ≡ lookup q m
  lookup-remove_ne p q [] ne = refl
  lookup-remove_ne p q ((r, b) ∷ m) ne = elim (Bool-cases (r == p)) [
    | inl e ↦
        let away : r ≢ q = λ h. ne (sym ((==_iff r p).0 e) ∙ h) in
        rw e (sym (lookup_past q r b m away))
    | inr e ↦ rw e (elim (Bool-cases (r == q)) [
      | inl f ↦ rw f refl
      | inr f ↦ rw f (lookup-remove_ne p q m ne)
    ])
  ]

  pub remove-IsSimple : (p : ℕ) (m : List (ℕ × A)) → IsSimple m → IsSimple (remove p m)
  remove-IsSimple p [] s = tt
  remove-IsSimple p ((r, b) ∷ m) s = elim (Bool-cases (r == p)) [
    | inl e ↦ rw e s.1
    | inr e ↦
        let away : p ≢ r = λ h. absurd (cc (e, (==_iff r p).1 (sym h))) in
        rw e (lookup-remove_ne p r m away ∙ s.0, remove-IsSimple p m s.1)
  ]

  pub lookup-remove_self : (p : ℕ) (m : List (ℕ × A)) → IsSimple m → lookup p (remove p m) ≡ none
  lookup-remove_self p [] s = refl
  lookup-remove_self p ((r, b) ∷ m) s = elim (Bool-cases (r == p)) [
    | inl e ↦ rw e (ap (λ q. lookup q m) (sym ((==_iff r p).0 e)) ∙ s.0)
    | inr e ↦ rw (e, e) (lookup-remove_self p m s.1)
  ]

  pub lookup-update_ne :
      (p q : ℕ) (a : A) (m : List (ℕ × A)) → p ≢ q → lookup q (update p a m) ≡ lookup q m
  lookup-update_ne p q a [] ne = refl
  lookup-update_ne p q a ((r, b) ∷ m) ne = elim (Bool-cases (r == p)) [
    | inl e ↦
        let away : r ≢ q = λ h. ne (sym ((==_iff r p).0 e) ∙ h) in
        rw e (lookup_past q r a m away ∙ sym (lookup_past q r b m away))
    | inr e ↦ rw e (elim (Bool-cases (r == q)) [
      | inl f ↦ rw f refl
      | inr f ↦ rw f (lookup-update_ne p q a m ne)
    ])
  ]

  pub lookup-update_self :
      (p : ℕ) (a b : A) (m : List (ℕ × A)) → lookup p m ≡ some b → lookup p (update p a m) ≡ some a
  lookup-update_self p a b [] h = absurd (cc)
  lookup-update_self p a b ((r, c) ∷ m) h = elim (Bool-cases (r == p)) [
    | inl e ↦ rw (e, e) refl
    | inr e ↦
        let there : lookup p m ≡ some b =
          sym (lookup_past p r c m (λ g. absurd (cc (e, (==_iff r p).1 g)))) ∙ h in
        rw (e, e) (lookup-update_self p a b m there)
  ]

  lookup_at : (p q : ℕ) (a : A) (m : List (ℕ × A)) → p ≡ q → lookup q ((p, a) ∷ m) ≡ some a
  lookup_at p q a m e = rw ((==_iff p q).1 e) refl

  lookup-update-none :
      (p q : ℕ) (a : A) (m : List (ℕ × A)) → lookup q m ≡ none → lookup q (update p a m) ≡ none
  lookup-update-none p q a [] h = refl
  lookup-update-none p q a ((r, c) ∷ m) h = elim (Bool-cases (r == q)) [
    | inl f ↦ absurd (cc (h, lookup_at r q c m ((==_iff r q).0 f)))
    | inr f ↦
        let away : r ≢ q = λ g. absurd (cc (f, (==_iff r q).1 g)) in
        let past = sym (lookup_past q r c m away) ∙ h in
        elim (Bool-cases (r == p)) [
          | inl e ↦ rw e (lookup_past q r a m away ∙ past)
          | inr e ↦ rw e (lookup_past q r c (update p a m) away ∙ lookup-update-none p q a m past)
        ]
  ]

  pub update-IsSimple : (p : ℕ) (a : A) (m : List (ℕ × A)) → IsSimple m → IsSimple (update p a m)
  update-IsSimple p a [] s = tt
  update-IsSimple p a ((r, b) ∷ m) s = elim (Bool-cases (r == p)) [
    | inl e ↦ rw e s
    | inr e ↦ rw e (lookup-update-none p r a m s.0, update-IsSimple p a m s.1)
  ]
