-- ===== src/Prelude/Bits.antt =====
-- Checks of a property of small numbers at every value, by evaluation.
use Prim.Native.Nat.{ℕ, zero, suc, ◌<◌}
use mathlib.Core.Path.{◌≡◌}
use mathlib.Core.Bool.{Bool, true, ◌&&◌}
use native.Mathlib.Omega.{arith}

-- whether the test passes at each number under the bound
unfoldable pub passes_under : (ℕ → Bool) → ℕ → Bool
passes_under test zero = true
passes_under test (suc bound) = passes_under test bound && test bound

pub passes_under-at :
    (test : ℕ → Bool) (bound n : ℕ) → passes_under test bound ≡ true → n < bound → test n ≡ true
unfolding passes_under
passes_under-at test zero n h l = absurd (omega arith)
passes_under-at test (suc bound) n h l = ground (arith, passes_under-at test bound n)
