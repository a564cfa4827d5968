-- ===== src/System/Keeps.antt =====
-- Invariants of the code that changes the static variables, one rule for each way to build it. A
-- run that ends in a fault leaves nothing to hold.
use cc1352_firmware.Prelude.{
  ℕ, zero, suc, ◌≡◌, refl, Bool, true, false, Option, none, some, if◌then◌else◌,
}
use cc1352_firmware.Prelude.Int.{ℤ, pos, negsuc}
use cc1352_firmware.System.Kernel.{Kernel}
use cc1352_firmware.System.World.{
  World, Fault, Outcome, done, fault, M, ◌>>=◌, ◌>>◌, return, fail, gets, modify, when, non_null,
  in_array, live,
}

-- what holds of the state that a run leaves
abbrev pub After : {k : Kernel} {A : Type 0} → (World k → Type 0) → Outcome k A → Type 0
After P (done a w) = P w
After P (fault e) = Unit {0}

pub record Keeps {k : Kernel} {A : Type 0} (P : World k → Type 0) (m : M k A) : Type 0 where
  pub kept : (w : World k) → P w → After P (m w)

module _ {k : Kernel} {P : World k → Type 0} where
  pub Keeps-when : (b : Bool) (m : M k (Unit {0})) → Keeps P m → Keeps P (when b m)
  Keeps-when true m h = h
  Keeps-when false m h = record { kept = λ w p. p }

  pub Keeps-modify : (f : World k → World k) → ((w : World k) → P w → P (f w)) → Keeps P (modify f)
  Keeps-modify f h = record { kept = h }

module _ {k : Kernel} {A : Type 0} {P : World k → Type 0} where
  pub Keeps-return : (a : A) → Keeps P (return {k = k} a)
  Keeps-return a = record { kept = λ w h. h }

  pub Keeps-fail : (e : Fault) → Keeps P (fail {k = k} {A = A} e)
  Keeps-fail e = record { kept = λ w h. tt }

  pub Keeps-gets : (f : World k → A) → Keeps P (gets f)
  Keeps-gets f = record { kept = λ w h. h }

  pub Keeps-non_null : (o : Option A) → Keeps P (non_null {k = k} o)
  Keeps-non_null none = Keeps-fail _
  Keeps-non_null (some a) = Keeps-return a

  pub Keeps-in_array : (o : Option A) → Keeps P (in_array {k = k} o)
  Keeps-in_array none = Keeps-fail _
  Keeps-in_array (some a) = Keeps-return a

  pub Keeps-live : (o : Option A) → Keeps P (live {k = k} o)
  Keeps-live none = Keeps-fail _
  Keeps-live (some a) = Keeps-return a

  pub Keeps-if : (b : Bool) (m n : M k A) → Keeps P m → Keeps P n → Keeps P (if b then m else n)
  Keeps-if true m n km kn = km
  Keeps-if false m n km kn = kn

-- and the value that it returns has the property
abbrev pub AfterGiving :
    {k : Kernel} {A : Type 0} → (World k → Type 0) → (A → Type 0) → Outcome k A → Type 0
AfterGiving P Q (done a w) = P w × Q a
AfterGiving P Q (fault e) = Unit {0}

pub record Gives {k : Kernel} {A : Type 0} (P : World k → Type 0) (Q : A → Type 0) (m : M k A)
    : Type 0 where
  pub given : (w : World k) → P w → AfterGiving P Q (m w)

-- a run, and then another one that may use what the first one returns
abbrev pub and_then : {k : Kernel} {A B : Type 0} → Outcome k A → (A → M k B) → Outcome k B
and_then o f = elim o [ done a w ↦ f a w | fault e ↦ fault e ]

module _ {k : Kernel} {A B : Type 0} {P : World k → Type 0} where
  pub After-and_then :
      (o : Outcome k A) (f : A → M k B)
      → After P o
      → ((a : A) → Keeps P (f a))
      → After P (and_then o f)
  After-and_then (done a w) f h kf = (kf a).kept w h
  After-and_then (fault e) f h kf = tt

  AfterGiving-and_then :
      (Q : A → Type 0) (o : Outcome k A) (f : A → M k B)
      → AfterGiving P Q o
      → ((a : A) → Q a → Keeps P (f a))
      → After P (and_then o f)
  AfterGiving-and_then Q (done a w) f h kf = (kf a h.1).kept w h.0
  AfterGiving-and_then Q (fault e) f h kf = tt

  pub Keeps-bind :
      (m : M k A) (f : A → M k B) → Keeps P m → ((a : A) → Keeps P (f a)) → Keeps P (◌>>=◌ m f)
  Keeps-bind m f km kf = record { kept = λ w h. After-and_then (m w) f (km.kept w h) kf }

  pub Keeps-then : (m : M k A) (n : M k B) → Keeps P m → Keeps P n → Keeps P (◌>>◌ m n)
  Keeps-then m n km kn = record {
    kept = λ w h. After-and_then (m w) (λ a. n) (km.kept w h) (λ a. kn);
  }

  pub Gives-bind :
      (Q : A → Type 0) (m : M k A) (f : A → M k B)
      → Gives P Q m
      → ((a : A) → Q a → Keeps P (f a))
      → Keeps P (◌>>=◌ m f)
  Gives-bind Q m f gm kf = record { kept = λ w h. AfterGiving-and_then Q (m w) f (gm.given w h) kf }

  pub Keeps-option :
      (o : Option A) (m : M k B) (f : A → M k B)
      → Keeps P m
      → ((a : A) → o ≡ some a → Keeps P (f a))
      → Keeps P (elim o [ none ↦ m | some a ↦ f a ])
  Keeps-option none m f km kf = km
  Keeps-option (some a) m f km kf = kf a refl

module _ {k : Kernel} {A : Type 0} {P : World k → Type 0} where
  pub Gives-gets :
      (Q : A → Type 0) (f : World k → A) → ((w : World k) → P w → Q (f w)) → Gives P Q (gets f)
  Gives-gets Q f h = record { given = λ w p. (p, h w p) }

  pub Gives-live :
      (Q : A → Type 0) (o : Option A) → ((a : A) → o ≡ some a → Q a) → Gives P Q (live {k = k} o)
  Gives-live Q none h = record { given = λ w p. tt }
  Gives-live Q (some a) h = record { given = λ w p. (p, h a refl) }

  pub Gives-in_array :
      (Q : A → Type 0) (o : Option A)
      → ((a : A) → o ≡ some a → Q a)
      → Gives P Q (in_array {k = k} o)
  Gives-in_array Q none h = record { given = λ w p. tt }
  Gives-in_array Q (some a) h = record { given = λ w p. (p, h a refl) }

  pub Keeps-int :
      (i : ℤ) (f g : ℕ → M k A)
      → ((n : ℕ) → Keeps P (f n))
      → ((n : ℕ) → Keeps P (g n))
      → Keeps P (elim i [ negsuc n ↦ f n | pos n ↦ g n ])
  Keeps-int (negsuc n) f g kf kg = kf n
  Keeps-int (pos n) f g kf kg = kg n

  pub Keeps-count :
      (i : ℤ) (f g : ℕ → M k A) (m : M k A)
      → ((n : ℕ) → Keeps P (f n))
      → Keeps P m
      → ((n : ℕ) → Keeps P (g n))
      → Keeps P (elim i [ negsuc n ↦ f n | pos zero ↦ m | pos (suc n) ↦ g n ])
  Keeps-count (negsuc n) f g m kf km kg = kf n
  Keeps-count (pos zero) f g m kf km kg = km
  Keeps-count (pos (suc n)) f g m kf km kg = kg n

-- the same for code that is written over the state
module _ {k : Kernel} {A B : Type 0} (P : World k → Type 0) where
  pub After-option :
      (o : Option A) (m : Outcome k B) (f : A → Outcome k B)
      → After P m
      → ((a : A) → After P (f a))
      → After P (elim o [ none ↦ m | some a ↦ f a ])
  After-option none m f hm hf = hm
  After-option (some a) m f hm hf = hf a

module _ {k : Kernel} {A : Type 0} (P : World k → Type 0) where
  pub After-if :
      (b : Bool) (m n : Outcome k A) → After P m → After P n → After P (if b then m else n)
  After-if true m n hm hn = hm
  After-if false m n hm hn = hn

pub ruleset keeps_rules = (
  Keeps-return, Keeps-fail, Keeps-gets, Keeps-non_null, Keeps-in_array, Keeps-live, Keeps-if,
  Keeps-when, Keeps-option, Keeps-int, Keeps-bind, Keeps-then,
)
