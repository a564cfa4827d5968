-- ===== src/Prelude/Words.antt =====
-- Machine words as native numbers: bytes, 16-bit words and the 32-bit `size_t` of the target.
use Prim.Native.Nat.{ℕ, ◌+◌, ◌-◌, ◌/◌, ◌%◌, ◌^◌, ◌<◌}
use mathlib.Core.List.{List}

abbrev pub Bytes : Type 0
Bytes = List ℕ

abbrev pub IsByte : ℕ → Type 0
IsByte b = b < 256

abbrev pub IsWord : ℕ → Type 0
IsWord w = w < 65536

-- The low and the high byte of a `uint16_t`.
abbrev pub lo : ℕ → ℕ
lo w = w % 256

abbrev pub hi : ℕ → ℕ
hi w = w / 256 % 256

-- `size_t` subtraction and addition wrap at 2 ^ 32.
abbrev pub sub_size : ℕ → ℕ → ℕ
sub_size a b = (a + 2 ^ 32 - b) % 2 ^ 32

abbrev pub add_size : ℕ → ℕ → ℕ
add_size a b = (a + b) % 2 ^ 32
