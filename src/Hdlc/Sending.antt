-- ===== src/Hdlc/Sending.antt =====
-- src/hdlc.c: what `hdlc_block_send_sync` puts on the line. `CrcLaws` is what the kernel documents
-- of the CRC-16 that is used with seed and final xor 0xffff: it is a 16-bit value, and a checksum
-- sent low byte first leaves the residual 0xf0b8.
use cc1352_firmware.Prelude.{
  ℕ, ◌*◌, ◌%◌, ◌≡◌, refl, sym, [], ◌∷◌, ◌++◌, arith, bit_xor, All, Bytes, IsByte, IsWord, lo, hi,
  ◌==◌, if◌then◌else◌, append_assoc,
}
use cc1352_firmware.Hdlc.{
  HdlcDriver, hdlc_frame, escape_byte, uart_poll_out_crc, poll_out_all, hdlc_block_send_sync,
}
use cc1352_firmware.Hdlc.Line.{crc_of, escape_all}

pub record CrcLaws (crc16_ccitt : ℕ → Bytes → ℕ) : Type 0 where
  pub word : (seed b : ℕ) → IsWord seed → IsByte b → IsWord (crc16_ccitt seed (b ∷ []))
  pub residual :
      (seed : ℕ)
      → IsWord seed
      → (let fcs = bit_xor seed 0xffff in
          crc16_ccitt (crc16_ccitt seed (lo fcs ∷ [])) (hi fcs ∷ []))
        ≡ 0xf0b8

pub escape_all-append : (xs ys : Bytes) → escape_all (xs ++ ys) ≡ escape_all xs ++ escape_all ys
escape_all-append [] ys = refl
escape_all-append (x ∷ xs) ys =
    rw (escape_all-append xs ys)
      (sym (append_assoc (escape_byte x) (escape_all xs) (escape_all ys)))

pub crc_of-append :
    (crc16_ccitt : ℕ → Bytes → ℕ) (xs ys : Bytes) (crc : ℕ)
    → crc_of crc16_ccitt crc (xs ++ ys) ≡ crc_of crc16_ccitt (crc_of crc16_ccitt crc xs) ys
crc_of-append crc16_ccitt [] ys crc = refl
crc_of-append crc16_ccitt (x ∷ xs) ys crc =
    crc_of-append crc16_ccitt xs ys (crc16_ccitt crc (x ∷ []))

module _ (crc16_ccitt : ℕ → Bytes → ℕ) where
  -- the checksum field after the bytes `bs`
  abbrev pub fcs : Bytes → Bytes
  fcs bs = let w = bit_xor (crc_of crc16_ccitt 0xffff bs) 0xffff in lo w ∷ hi w ∷ []

  poll_out_all_lem :
      (bs : Bytes) (crc : ℕ)
      → poll_out_all crc16_ccitt bs crc ≡ (escape_all bs, crc_of crc16_ccitt crc bs)
  unfolding poll_out_all uart_poll_out_crc
  poll_out_all_lem [] crc = refl
  poll_out_all_lem (b ∷ bs) crc = rw (poll_out_all_lem bs (crc16_ccitt crc (b ∷ [])))

  -- the control byte that is sent
  abbrev pub control_byte : HdlcDriver → ℕ → ℕ
  control_byte d control = if control == 0 then d.send_seq * 2 % 256 else control

  -- A frame on the line: the delimiters, and between them address, control, payload and checksum.
  pub hdlc_block_send_sync_lem :
      (d : HdlcDriver) (buffer : Bytes) (address control : ℕ)
      → let content = address ∷ control_byte d control ∷ buffer in
        hdlc_block_send_sync crc16_ccitt d buffer address control
        ≡ hdlc_frame
          ∷ (escape_all (address ∷ control_byte d control ∷ (buffer ++ fcs content))
              ++ hdlc_frame ∷ [])
  unfolding hdlc_block_send_sync uart_poll_out_crc
  hdlc_block_send_sync_lem d buffer address control =
      let content = address ∷ control_byte d control ∷ buffer in
      rw
        (
          poll_out_all_lem buffer
              (crc16_ccitt (crc16_ccitt 0xffff (address ∷ [])) (control_byte d control ∷ [])),
          escape_all-append buffer (fcs content),
        )
        (simp append_assoc)

  module _ (laws : CrcLaws crc16_ccitt) where
    crc_of-IsWord :
        (bs : Bytes) (crc : ℕ) → IsWord crc → All IsByte bs → IsWord (crc_of crc16_ccitt crc bs)
    crc_of-IsWord [] crc h a = h
    crc_of-IsWord (b ∷ bs) crc h a =
        crc_of-IsWord bs (crc16_ccitt crc (b ∷ [])) (laws.word crc b h a.0) a.1

    -- The checksum over a frame's bytes and its checksum field is the residual.
    pub crc_of-fcs :
        (bs : Bytes) → All IsByte bs → crc_of crc16_ccitt 0xffff (bs ++ fcs bs) ≡ 0xf0b8
    crc_of-fcs bs a =
        rw (crc_of-append crc16_ccitt bs (fcs bs) 0xffff)
          (laws.residual (crc_of crc16_ccitt 0xffff bs) (crc_of-IsWord bs 0xffff (omega arith) a))
