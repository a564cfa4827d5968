-- ===== src/Hdlc/Line.antt =====
-- src/hdlc.c: the bytes that a frame puts on the line, and how the receiver reads them back one
-- by one. `contents` is the used part of the receive buffer.
use cc1352_firmware.Prelude.{
  ℕ, suc, set, length-set, sym, ◌+◌, ◌≤◌, ◌<◌, ◌≡◌, ◌≢◌, refl, ◌∙◌, false, [], ◌∷◌, ◌++◌, arith,
  length, take, take-set_end, All, Bytes, append_assoc, append-nil,
}
use cc1352_firmware.Hdlc.{
  HdlcDriver, hdlc_frame, hdlc_max_block_size, hdlc_save_byte, escape_byte, hdlc_rx_input_byte,
  hdlc_process_buffer,
}

abbrev pub contents : HdlcDriver → Bytes
contents d = take d.rx_buffer_len d.rx_buffer

-- No byte that `escape_byte` sends is the frame delimiter.
pub escape_byte-ne_frame : (b : ℕ) → All (λ x. x ≢ hdlc_frame) (escape_byte b)
unfolding escape_byte
escape_byte-ne_frame b = ground arith

-- the checksum over a run of bytes
abbrev pub crc_of : (ℕ → Bytes → ℕ) → ℕ → Bytes → ℕ
crc_of crc16_ccitt crc [] = crc
crc_of crc16_ccitt crc (b ∷ bs) = crc_of crc16_ccitt (crc16_ccitt crc (b ∷ [])) bs

abbrev pub escape_all : Bytes → Bytes
escape_all [] = []
escape_all (b ∷ bs) = escape_byte b ++ escape_all bs

module _ (crc16_ccitt : ℕ → Bytes → ℕ) where
  -- What the receiver makes of one byte of a frame.
  abbrev pub push : HdlcDriver → ℕ → HdlcDriver
  push d b = hdlc_save_byte (record d { crc = crc16_ccitt d.crc (b ∷ []) }) b

  abbrev pub push_all : HdlcDriver → Bytes → HdlcDriver
  push_all d [] = d
  push_all d (b ∷ bs) = push_all (push d b) bs

module _ {S : Type 0} (process_cb : Bytes → ℕ → S → S) (crc16_ccitt : ℕ → Bytes → ℕ) where
  pub hdlc_process_buffer-append :
      (d : HdlcDriver) (xs ys : Bytes) (s : S)
      → hdlc_process_buffer process_cb crc16_ccitt d (xs ++ ys) s ≡ (
          let (d', s') = hdlc_process_buffer process_cb crc16_ccitt d xs s in
          hdlc_process_buffer process_cb crc16_ccitt d' ys s')
  unfolding hdlc_process_buffer
  hdlc_process_buffer-append d [] ys s = refl
  hdlc_process_buffer-append d (x ∷ xs) ys s =
      let (d', s') = hdlc_rx_input_byte process_cb crc16_ccitt d x s in
      hdlc_process_buffer-append d' xs ys s'

  -- The two or one bytes of an escaped byte are one byte for the receiver.
  hdlc_process_buffer-escape_byte :
      (d : HdlcDriver) (b : ℕ) (s : S)
      → d.next_escaped ≡ false
      → hdlc_process_buffer process_cb crc16_ccitt d (escape_byte b) s ≡ (push crc16_ccitt d b, s)
  unfolding hdlc_process_buffer hdlc_rx_input_byte escape_byte
  hdlc_process_buffer-escape_byte d b s h = ground arith

  push-next_escaped :
      (d : HdlcDriver) (b : ℕ) → (push crc16_ccitt d b).next_escaped ≡ d.next_escaped
  unfolding hdlc_save_byte
  push-next_escaped d b = refl

  pub hdlc_process_buffer-escape_all :
      (d : HdlcDriver) (bs : Bytes) (s : S)
      → d.next_escaped ≡ false
      → hdlc_process_buffer process_cb crc16_ccitt d (escape_all bs) s
        ≡ (push_all crc16_ccitt d bs, s)
  unfolding hdlc_process_buffer
  hdlc_process_buffer-escape_all d [] s h = refl
  hdlc_process_buffer-escape_all d (b ∷ bs) s h =
      rw
        (
          hdlc_process_buffer-append d (escape_byte b) (escape_all bs) s,
          hdlc_process_buffer-escape_byte d b s h,
        )
        (hdlc_process_buffer-escape_all (push crc16_ccitt d b) bs s (push-next_escaped d b ∙ h))

-- With room in the buffer a byte is appended.
hdlc_save_byte_room :
    (d : HdlcDriver) (b : ℕ)
    → d.rx_buffer_len < hdlc_max_block_size
    → hdlc_save_byte d b ≡ record d {
      rx_buffer_len = suc d.rx_buffer_len;
      rx_buffer = set d.rx_buffer d.rx_buffer_len b;
    }
unfolding hdlc_save_byte
hdlc_save_byte_room d b h = ground arith

module _ (crc16_ccitt : ℕ → Bytes → ℕ) where
  -- `d'` has received the bytes `bs` after `d`.
  pub record Received (d : HdlcDriver) (bs : Bytes) (d' : HdlcDriver) : Type 0 where
    pub crc_is : d'.crc ≡ crc_of crc16_ccitt d.crc bs
    pub len_is : d'.rx_buffer_len ≡ d.rx_buffer_len + length bs
    pub contents_is : contents d' ≡ contents d ++ bs
    pub size_is : length d'.rx_buffer ≡ length d.rx_buffer
    pub seq_is : d'.rx_send_seq ≡ d.rx_send_seq
    pub unescaped : d'.next_escaped ≡ d.next_escaped

  Received-push :
      (d : HdlcDriver) (b : ℕ)
      → length d.rx_buffer ≡ hdlc_max_block_size
      → d.rx_buffer_len < hdlc_max_block_size
      → Received d (b ∷ []) (push crc16_ccitt d b)
  Received-push d b z h =
      rw (hdlc_save_byte_room (record d { crc = crc16_ccitt d.crc (b ∷ []) }) b h) (record {
        crc_is = refl;
        len_is = omega arith;
        contents_is = take-set_end d.rx_buffer_len d.rx_buffer b (omega arith);
        size_is = length-set d.rx_buffer d.rx_buffer_len b;
        seq_is = refl;
        unescaped = refl;
      })

  -- A run of bytes that fits into the buffer is received whole.
  pub Received-push_all :
      (d : HdlcDriver) (bs : Bytes)
      → length d.rx_buffer ≡ hdlc_max_block_size
      → d.rx_buffer_len + length bs ≤ hdlc_max_block_size
      → Received d bs (push_all crc16_ccitt d bs)
  Received-push_all d [] z h = record {
    crc_is = refl;
    len_is = omega arith;
    contents_is = sym (append-nil _);
    size_is = refl;
    seq_is = refl;
    unescaped = refl;
  }
  Received-push_all d (b ∷ bs) z h =
      let one = Received-push d b z (omega arith) in
      let more =
        Received-push_all (push crc16_ccitt d b) bs (one.size_is ∙ z) (omega (arith, one.len_is)) in
      record {
        crc_is = rw (more.crc_is, one.crc_is);
        len_is = omega (arith, one.len_is, more.len_is);
        contents_is = more.contents_is ∙ rw one.contents_is (append_assoc (contents d) (b ∷ []) bs);
        size_is = more.size_is ∙ one.size_is;
        seq_is = more.seq_is ∙ one.seq_is;
        unescaped = more.unescaped ∙ one.unescaped;
      }
