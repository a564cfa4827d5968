-- ===== src/Hdlc/Framing.antt =====
-- src/hdlc.c: where frames begin and end on the line.
use cc1352_firmware.Prelude.{
  ℕ, ◌+◌, ◌*◌, ◌≤◌, ◌≡◌, ◌≢◌, true, [], ◌∷◌, ◌++◌, arith, bit_xor, length, length-append, All,
  All-append, take-set_end, Bytes,
}
use cc1352_firmware.Hdlc.{
  HdlcDriver, hdlc_frame, hdlc_esc, hdlc_max_block_size, escape_byte, hdlc_block_send_sync,
  hdlc_process_frame, hdlc_rx_input_byte, hdlc_process_buffer, hdlc_save_byte,
}
use cc1352_firmware.Hdlc.Bounds.{IsValid}
use cc1352_firmware.Hdlc.Line.{contents, escape_all, escape_byte-ne_frame}
use cc1352_firmware.Hdlc.Sending.{fcs, control_byte, hdlc_block_send_sync_lem}

pub escape_all-ne_frame : (bs : Bytes) → All (λ x. x ≢ hdlc_frame) (escape_all bs)
escape_all-ne_frame [] = tt
escape_all-ne_frame (b ∷ bs) =
    All-append _ (escape_byte b) (escape_all bs) (escape_byte-ne_frame b) (escape_all-ne_frame bs)

length-escape_byte : (b : ℕ) → length (escape_byte b) ≤ 2
unfolding escape_byte
length-escape_byte b = ground arith

length-escape_all : (bs : Bytes) → length (escape_all bs) ≤ 2 * length bs
length-escape_all [] = omega arith
length-escape_all (b ∷ bs) = omega (
  arith,
  length-append (escape_byte b) (escape_all bs),
  length-escape_byte b,
  length-escape_all bs,
)

-- Whatever is sent, the delimiter stands at both ends and nowhere between, and there are at most
-- two bytes between the ends for each byte of payload, address, control and checksum.
pub hdlc_block_send_sync_framed :
    (crc16_ccitt : ℕ → Bytes → ℕ) (d : HdlcDriver) (buffer : Bytes) (address control : ℕ)
    → (body : Bytes) × (hdlc_block_send_sync crc16_ccitt d buffer address control
        ≡ hdlc_frame ∷ (body ++ hdlc_frame ∷ []))
      × All (λ x. x ≢ hdlc_frame) body
      × (length body ≤ 2 * (length buffer + 4))
hdlc_block_send_sync_framed crc16_ccitt d buffer address control =
    let c = control_byte crc16_ccitt d control in
    let all = address ∷ c ∷ (buffer ++ fcs crc16_ccitt (address ∷ c ∷ buffer)) in
    (
      escape_all all,
      hdlc_block_send_sync_lem crc16_ccitt d buffer address control,
      escape_all-ne_frame all,
      omega (
        arith,
        length-escape_all all,
        length-append buffer (fcs crc16_ccitt (address ∷ c ∷ buffer)),
      ),
    )

module _ {S : Type 0} (process_cb : Bytes → ℕ → S → S) (crc16_ccitt : ℕ → Bytes → ℕ) where
  aborted :
      (d : HdlcDriver) (s : S)
      → IsValid d
      → let d' = (hdlc_process_buffer process_cb crc16_ccitt d (hdlc_esc ∷ hdlc_frame ∷ []) s).0 in
        (d'.rx_buffer_len ≡ 0)
        × (d'.next_escaped ≡ true)
        × (length d'.rx_buffer ≡ hdlc_max_block_size)
  unfolding hdlc_process_buffer hdlc_rx_input_byte hdlc_process_frame
  aborted d s v = ground arith

  first_escaped :
      (d : HdlcDriver) (a : ℕ) (s : S)
      → d.rx_buffer_len ≡ 0
      → d.next_escaped ≡ true
      → length d.rx_buffer ≡ hdlc_max_block_size
      → a ≢ hdlc_frame
      → a ≢ hdlc_esc
      → contents (hdlc_rx_input_byte process_cb crc16_ccitt d a s).0 ≡ bit_xor a 0x20 ∷ []
  unfolding hdlc_rx_input_byte hdlc_save_byte
  first_escaped d a s e h z nf ne = ground (arith, take-set_end 0 d.rx_buffer (bit_xor a 0x20))

-- In a valid driver an escape byte before a delimiter is not forgotten: the first byte of the next
-- frame, if it is no delimiter and no escape byte, is stored with its bit 0x20 flipped.
pub hdlc_process_buffer_escaped_delimiter :
    {S : Type 0} (process_cb : Bytes → ℕ → S → S) (crc16_ccitt : ℕ → Bytes → ℕ) (d : HdlcDriver)
    (a : ℕ) (s : S)
    → IsValid d
    → a ≢ hdlc_frame
    → a ≢ hdlc_esc
    → let d' =
        (hdlc_process_buffer process_cb crc16_ccitt d (hdlc_esc ∷ hdlc_frame ∷ a ∷ []) s).0 in
      contents d' ≡ bit_xor a 0x20 ∷ []
unfolding hdlc_process_buffer
hdlc_process_buffer_escaped_delimiter process_cb crc16_ccitt d a s v nf ne =
    let (d', s') = hdlc_process_buffer process_cb crc16_ccitt d (hdlc_esc ∷ hdlc_frame ∷ []) s in
    let (e, h, z) = aborted process_cb crc16_ccitt d s v in
    first_escaped process_cb crc16_ccitt d' a s' e h z nf ne
