-- ===== src/Hdlc/RoundTrip.antt =====
-- src/hdlc.c: a frame that `hdlc_block_send_sync` puts on the line is what the receiver hands on.
use cc1352_firmware.Prelude.{
  ℕ, zero, suc, ==-ne, ◌+◌, ◌-◌, ◌%◌, ◌≤◌, ◌≡◌, ◌≢◌, refl, ap, ◌∙◌, false, [], ◌∷◌, ◌++◌, arith,
  length, length-append, take, drop, All, Bytes, IsByte, get_or,
}
use cc1352_firmware.Hdlc.{
  HdlcDriver, hdlc_frame, hdlc_max_block_size, hdlc_block_send_sync, hdlc_rx_input_byte,
  hdlc_process_buffer, hdlc_process_frame,
}
use cc1352_firmware.Hdlc.Line.{
  contents, crc_of, escape_all, push_all, Received-push_all, hdlc_process_buffer-append,
  hdlc_process_buffer-escape_all,
}
use cc1352_firmware.Hdlc.Sending.{CrcLaws, fcs, hdlc_block_send_sync_lem, crc_of-fcs}

-- A driver between two frames.
pub record IsIdle (d : HdlcDriver) : Type 0 where
  pub size : length d.rx_buffer ≡ hdlc_max_block_size
  pub empty : d.rx_buffer_len ≡ 0
  pub fresh_crc : d.crc ≡ 0xffff
  pub not_escaped : d.next_escaped ≡ false

cons_head : {x y : ℕ} {xs ys : Bytes} → x ∷ xs ≡ y ∷ ys → x ≡ y
cons_head e = cc

cons_tail : {x y : ℕ} {xs ys : Bytes} → x ∷ xs ≡ y ∷ ys → xs ≡ ys
cons_tail e = cc

cons_ne : {y : ℕ} {ys : Bytes} → [] ≡ y ∷ ys → ⊥
cons_ne e = cc

take-prefix : (p t r : Bytes) (m : ℕ) → take m r ≡ p ++ t → length p ≤ m → take (length p) r ≡ p
take-prefix [] t r m e h = refl
take-prefix (x ∷ p) t r zero e h = absurd (omega arith)
take-prefix (x ∷ p) t [] (suc m) e h = cc
take-prefix (x ∷ p) t (y ∷ r) (suc m) e h =
    ground (arith, take-prefix p t r m (cons_tail e) (omega arith))

-- The parts of a full receive buffer: address, control and what stands before the checksum.
frame_fields :
    (a c : ℕ) (p : Bytes) (t r : Bytes) (k : ℕ)
    → take k r ≡ a ∷ c ∷ (p ++ t)
    → k ≡ length p + 4
    → (get_or r 0 0 ≡ a) × (get_or r 1 0 ≡ c) × (take (length p) (drop 2 r) ≡ p)
frame_fields a c p t r zero e h = absurd (omega arith)
frame_fields a c p t r (suc zero) e h = absurd (omega arith)
frame_fields a c p t [] (suc (suc k)) e h = cc
frame_fields a c p t (x ∷ []) (suc (suc k)) e h = absurd (cons_ne (cons_tail e))
frame_fields a c p t (x ∷ y ∷ r) (suc (suc k)) e h = (
  cons_head e,
  cons_head (cons_tail e),
  take-prefix p t r k (cons_tail (cons_tail e)) (omega arith),
)

sub_four : (n k : ℕ) → k ≡ n + 4 → k - 4 ≡ n
sub_four n k h = omega arith

module _ {S : Type 0} (process_cb : Bytes → ℕ → S → S) where
  -- At the closing delimiter of a full good frame the callback is handed its payload.
  hdlc_process_frame_good :
      (d : HdlcDriver) (a c : ℕ) (p t : Bytes) (s : S)
      → d.crc ≡ 0xf0b8
      → contents d ≡ a ∷ c ∷ (p ++ t)
      → d.rx_buffer_len ≡ length p + 4
      → c % 2 ≡ 1
      → hdlc_process_frame process_cb d s
        ≡ (record d { crc = 0xffff; rx_buffer_len = 0 }, process_cb p a s)
  unfolding hdlc_process_frame
  hdlc_process_frame_good d a c p t s e f l o = ground (
    arith,
    frame_fields a c p t d.rx_buffer d.rx_buffer_len f l,
    sub_four (length p) d.rx_buffer_len l,
  )

module _ {S : Type 0} (process_cb : Bytes → ℕ → S → S) (crc16_ccitt : ℕ → Bytes → ℕ) where
  pub hdlc_rx_input_byte_opening :
      (d : HdlcDriver) (s : S)
      → d.rx_buffer_len ≡ 0
      → hdlc_rx_input_byte process_cb crc16_ccitt d hdlc_frame s ≡ (d, s)
  unfolding hdlc_rx_input_byte
  hdlc_rx_input_byte_opening d s h = ground arith

  pub hdlc_rx_input_byte_closing :
      (d : HdlcDriver) (s : S)
      → d.rx_buffer_len ≢ 0
      → hdlc_rx_input_byte process_cb crc16_ccitt d hdlc_frame s ≡ hdlc_process_frame process_cb d s
  unfolding hdlc_rx_input_byte
  hdlc_rx_input_byte_closing d s h = ground arith

  -- An opening delimiter changes nothing.
  pub hdlc_process_buffer_opening :
      (d : HdlcDriver) (bs : Bytes) (s : S)
      → d.rx_buffer_len ≡ 0
      → hdlc_process_buffer process_cb crc16_ccitt d (hdlc_frame ∷ bs) s
        ≡ hdlc_process_buffer process_cb crc16_ccitt d bs s
  unfolding hdlc_process_buffer
  hdlc_process_buffer_opening d bs s h =
      ap (λ (r : HdlcDriver × S). hdlc_process_buffer process_cb crc16_ccitt r.0 bs r.1)
        (hdlc_rx_input_byte_opening d s h)

  -- Between two delimiters the receiver reads the bytes, and then closes the frame.
  delimited :
      (d : HdlcDriver) (bs : Bytes) (s : S)
      → d.rx_buffer_len ≡ 0
      → d.next_escaped ≡ false
      → hdlc_process_buffer process_cb crc16_ccitt d
          (hdlc_frame ∷ (escape_all bs ++ hdlc_frame ∷ []))
          s
        ≡ hdlc_rx_input_byte process_cb crc16_ccitt (push_all crc16_ccitt d bs) hdlc_frame s
  unfolding hdlc_process_buffer
  delimited d bs s e h = rw (
    hdlc_process_buffer_opening d (escape_all bs ++ hdlc_frame ∷ []) s e,
    hdlc_process_buffer-append process_cb crc16_ccitt d (escape_all bs) (hdlc_frame ∷ []) s,
    hdlc_process_buffer-escape_all process_cb crc16_ccitt d bs s h,
  )

  -- The closing delimiter behind address, control, payload and a checksum that fits: the callback is
  -- handed the payload, and the driver is idle.
  pub receive_closing :
      (d : HdlcDriver) (a c : ℕ) (p t : Bytes) (s : S)
      → IsIdle d
      → crc_of crc16_ccitt 0xffff (a ∷ c ∷ (p ++ t)) ≡ 0xf0b8
      → length t ≡ 2
      → length p + 4 ≤ hdlc_max_block_size
      → c % 2 ≡ 1
      → let full = push_all crc16_ccitt d (a ∷ c ∷ (p ++ t)) in
        let d' : HdlcDriver = record full { crc = 0xffff; rx_buffer_len = 0 } in
        (hdlc_rx_input_byte process_cb crc16_ccitt full hdlc_frame s ≡ (d', process_cb p a s))
        × IsIdle d'
        × (d'.rx_send_seq ≡ d.rx_send_seq)
  receive_closing d a c p t s idle e l fits odd =
      let full = push_all crc16_ccitt d (a ∷ c ∷ (p ++ t)) in
      let size : length (a ∷ c ∷ (p ++ t)) ≡ length p + 4 = omega (arith, length-append p t) in
      let got =
        Received-push_all crc16_ccitt d (a ∷ c ∷ (p ++ t)) idle.size
          (omega (arith, idle.empty, size)) in
      let len : full.rx_buffer_len ≡ length p + 4 = omega (arith, got.len_is, idle.empty, size) in
      (
        hdlc_rx_input_byte_closing full s (omega (arith, len))
            ∙ hdlc_process_frame_good process_cb full a c p t s
                (got.crc_is ∙ ap (λ x. crc_of crc16_ccitt x (a ∷ c ∷ (p ++ t))) idle.fresh_crc ∙ e)
                (got.contents_is ∙ ap (λ k. take k d.rx_buffer ++ (a ∷ c ∷ (p ++ t))) idle.empty)
                len odd,
        record {
          size = got.size_is ∙ idle.size;
          empty = refl;
          fresh_crc = refl;
          not_escaped = got.unescaped ∙ idle.not_escaped;
        },
        got.seq_is,
      )

  -- The receiver over a delimited run of address, control, payload and a checksum that fits.
  receive_good :
      (d : HdlcDriver) (a c : ℕ) (p t : Bytes) (s : S)
      → IsIdle d
      → crc_of crc16_ccitt 0xffff (a ∷ c ∷ (p ++ t)) ≡ 0xf0b8
      → length t ≡ 2
      → length p + 4 ≤ hdlc_max_block_size
      → c % 2 ≡ 1
      → (d' : HdlcDriver) × (hdlc_process_buffer process_cb crc16_ccitt d
            (hdlc_frame ∷ (escape_all (a ∷ c ∷ (p ++ t)) ++ hdlc_frame ∷ []))
            s
          ≡ (d', process_cb p a s))
        × IsIdle d'
        × (d'.rx_send_seq ≡ d.rx_send_seq)
  receive_good d a c p t s idle e l fits odd =
      let full = push_all crc16_ccitt d (a ∷ c ∷ (p ++ t)) in
      let (closed, still, seq) = receive_closing d a c p t s idle e l fits odd in
      (
        record full { crc = 0xffff; rx_buffer_len = 0 },
        delimited d (a ∷ c ∷ (p ++ t)) s idle.empty idle.not_escaped ∙ closed,
        still,
        seq,
      )

-- Under the laws of the checksum, a frame sent with an odd control byte, over payload bytes that
-- leave room for the four bytes of address, control and checksum, is received by an idle driver as
-- exactly one call of the frame callback with the payload and the address, whatever state the
-- sending driver is in; the receiver is idle again and keeps its sequence number.
pub hdlc_process_buffer-hdlc_block_send_sync :
    {S : Type 0} (process_cb : Bytes → ℕ → S → S) (crc16_ccitt : ℕ → Bytes → ℕ)
    → CrcLaws crc16_ccitt
    → (sender receiver : HdlcDriver) (buffer : Bytes) (address control : ℕ) (s : S)
    → IsIdle receiver
    → All IsByte buffer
    → IsByte address
    → IsByte control
    → control % 2 ≡ 1
    → length buffer + 4 ≤ hdlc_max_block_size
    → (d : HdlcDriver) × (hdlc_process_buffer process_cb crc16_ccitt receiver
          (hdlc_block_send_sync crc16_ccitt sender buffer address control)
          s
        ≡ (d, process_cb buffer address s))
      × IsIdle d
      × (d.rx_send_seq ≡ receiver.rx_send_seq)
hdlc_process_buffer-hdlc_block_send_sync process_cb crc16_ccitt laws sender receiver buffer address
      control s idle bytes ha hc odd fits =
    rw
      (
        hdlc_block_send_sync_lem crc16_ccitt sender buffer address control,
        ==-ne control 0 (λ z. absurd (omega (arith, z))),
      )
      (receive_good process_cb crc16_ccitt receiver address control buffer
        (fcs crc16_ccitt (address ∷ control ∷ buffer)) s idle
        (crc_of-fcs crc16_ccitt laws (address ∷ control ∷ buffer) (ha, (hc, bytes))) refl fits odd)
