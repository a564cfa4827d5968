-- ===== src/Hdlc/Bounds.antt =====
-- src/hdlc.c: the receive buffer of the driver is never written out of bounds.
use cc1352_firmware.Prelude.{
  ℕ, ◌-◌, ◌≤◌, ◌<◌, ◌≡◌, refl, [], ◌∷◌, some, arith, length, false, bit_xor, length-set, get_elem?,
  get_elem?-set_self, Bytes,
}
use cc1352_firmware.Hdlc.{
  HdlcDriver, hdlc_max_block_size, hdlc_init, hdlc_save_byte, hdlc_process_frame,
  hdlc_rx_input_byte, hdlc_process_buffer,
}

-- What holds of the driver between two bytes.
pub record IsValid (d : HdlcDriver) : Type 0 where
  pub buffer_size : length d.rx_buffer ≡ hdlc_max_block_size
  pub within : d.rx_buffer_len ≤ hdlc_max_block_size
  pub idle_crc : d.rx_buffer_len ≡ 0 → d.crc ≡ 0xffff
  pub seq_small : d.rx_send_seq < 8

pub hdlc_init-IsValid :
    (d : HdlcDriver) → length d.rx_buffer ≡ hdlc_max_block_size → IsValid (hdlc_init d)
unfolding hdlc_init
hdlc_init-IsValid d h = record {
  buffer_size = h;
  within = omega arith;
  idle_crc = λ _. refl;
  seq_small = omega arith;
}

pub hdlc_save_byte-IsValid :
    (d : HdlcDriver) (byte : ℕ)
    → length d.rx_buffer ≡ hdlc_max_block_size
    → d.rx_send_seq < 8
    → IsValid (hdlc_save_byte d byte)
unfolding hdlc_save_byte
hdlc_save_byte-IsValid d byte h s =
    ground (arith, length-set d.rx_buffer d.rx_buffer_len byte, length-set d.rx_buffer 0 byte)

-- The byte saved is the last one of the buffer: the write is in bounds also when the buffer was
-- full, and nothing else than the bytes before it is kept.
pub hdlc_save_byte-stored :
    (d : HdlcDriver) (byte : ℕ)
    → IsValid d
    → let d' = hdlc_save_byte d byte in
      (1 ≤ d'.rx_buffer_len) × (get_elem? d'.rx_buffer (d'.rx_buffer_len - 1) ≡ some byte)
unfolding hdlc_save_byte
hdlc_save_byte-stored d byte v = ground (
  arith,
  v.buffer_size,
  get_elem?-set_self d.rx_buffer d.rx_buffer_len byte,
  get_elem?-set_self d.rx_buffer 0 byte,
)

module _ {S : Type 0} (process_cb : Bytes → ℕ → S → S) where
  hdlc_process_frame-IsValid :
      (d : HdlcDriver) (s : S) → IsValid d → IsValid (hdlc_process_frame process_cb d s).0
  unfolding hdlc_process_frame
  hdlc_process_frame-IsValid d s v = ground arith

  module _ (crc16_ccitt : ℕ → Bytes → ℕ) where
    pub hdlc_rx_input_byte-IsValid :
        (d : HdlcDriver) (byte : ℕ) (s : S)
        → IsValid d
        → IsValid (hdlc_rx_input_byte process_cb crc16_ccitt d byte s).0
    unfolding hdlc_rx_input_byte
    hdlc_rx_input_byte-IsValid d byte s v = ground (
      arith,
      hdlc_process_frame-IsValid d s v,
      hdlc_save_byte-IsValid
          (record d { next_escaped = false; crc = crc16_ccitt d.crc (byte ∷ []) }) byte
          v.buffer_size v.seq_small,
      hdlc_save_byte-IsValid
          (record d { next_escaped = false; crc = crc16_ccitt d.crc (bit_xor byte 0x20 ∷ []) })
          (bit_xor byte 0x20) v.buffer_size v.seq_small,
    )

    -- The receiver keeps a valid driver valid on every stream of bytes, whatever the checksum and
    -- the frame callback do: the buffer keeps its size, its fill level stays within the size, an
    -- empty buffer has the initial checksum, and the sequence number received has three bits.
    pub hdlc_process_buffer-IsValid :
        (d : HdlcDriver) (bs : Bytes) (s : S)
        → IsValid d
        → IsValid (hdlc_process_buffer process_cb crc16_ccitt d bs s).0
    unfolding hdlc_process_buffer
    hdlc_process_buffer-IsValid d [] s v = v
    hdlc_process_buffer-IsValid d (b ∷ bs) s v =
        let (d', s') = hdlc_rx_input_byte process_cb crc16_ccitt d b s in
        hdlc_process_buffer-IsValid d' bs s' (hdlc_rx_input_byte-IsValid d b s v)
