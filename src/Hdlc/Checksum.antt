-- ===== src/Hdlc/Checksum.antt =====
-- A concrete checksum for the tests of src/hdlc.c: CRC-16 in the reflected form with polynomial
-- 0x8408, computed a byte at a time.
use cc1352_firmware.Prelude.{
  ℕ, ◌+◌, ◌*◌, ◌/◌, ◌%◌, ◌≡◌, refl, Bool, true, [], ◌∷◌, bit_xor, arith, Bytes, IsWord, lo, hi,
  ◌==◌, ==_iff,
}
use cc1352_firmware.Prelude.Bits.{passes_under, passes_under-at}
use cc1352_firmware.Hdlc.Sending.{CrcLaws}

unfoldable pub crc_byte : ℕ → ℕ → ℕ
crc_byte seed b =
    let e = bit_xor seed b % 256 in
    let f = bit_xor e (e * 16) % 256 in
    bit_xor (bit_xor (bit_xor (seed / 256) (f * 256)) (f * 8)) (f / 16) % 65536

unfoldable pub crc16 : ℕ → Bytes → ℕ
crc16 seed [] = seed
crc16 seed (b ∷ bs) = crc16 (crc_byte seed b) bs

residual_at : ℕ → Bool
unfolding crc16 crc_byte
residual_at seed =
    let f = bit_xor seed 0xffff in crc16 (crc16 seed (lo f ∷ [])) (hi f ∷ []) == 0xf0b8

-- every seed, as high byte and low byte
residual_table : passes_under (λ h. passes_under (λ l. residual_at (h * 256 + l)) 256) 256 ≡ true
unfolding passes_under residual_at
residual_table = refl

crc_residual :
    (seed : ℕ)
    → IsWord seed
    → (let f = bit_xor seed 0xffff in crc16 (crc16 seed (lo f ∷ [])) (hi f ∷ [])) ≡ 0xf0b8
unfolding residual_at
crc_residual seed h =
    let row =
      passes_under-at (λ h. passes_under (λ l. residual_at (h * 256 + l)) 256) 256 (seed / 256)
        residual_table (omega arith) in
    let cell =
      passes_under-at (λ l. residual_at (seed / 256 * 256 + l)) 256 (seed % 256) row
        (omega arith) in
    let split : seed / 256 * 256 + seed % 256 ≡ seed = omega arith in
    (==_iff _ _).0 (rw split at cell)

pub crc16-laws : CrcLaws crc16
unfolding crc16 crc_byte
crc16-laws = record { word = λ seed b hs hb. omega arith; residual = crc_residual }
