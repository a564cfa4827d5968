-- ===== src/Serial/Frames.antt =====
-- src/main.c and src/hdlc.c: a frame on the serial line reaches `hdlc_process_complete_frame`.
use cc1352_firmware.Prelude.{
  ℕ, ◌+◌, ◌%◌, ◌≤◌, ◌≡◌, ◌≢◌, inl, inr, refl, ap, ◌∙◌, false, ◌==◌, ==-ne, [], ◌∷◌, ◌++◌, arith,
  length, All, Bytes, IsByte,
}
use cc1352_firmware.Hdlc.{
  HdlcDriver, hdlc_frame, hdlc_max_block_size, hdlc_block_send_sync, hdlc_rx_input_byte,
  hdlc_process_buffer,
}
use cc1352_firmware.Hdlc.Line.{escape_all, push_all, hdlc_process_buffer-escape_all}
use cc1352_firmware.Hdlc.Sending.{CrcLaws, fcs, hdlc_block_send_sync_lem, crc_of-fcs}
use cc1352_firmware.Hdlc.RoundTrip.{IsIdle, hdlc_rx_input_byte_opening, receive_closing}
use cc1352_firmware.Hdlc.Framing.{escape_all-ne_frame}
use cc1352_firmware.System.Kernel.{Kernel}
use cc1352_firmware.System.World.{World, Outcome, Outcome-cases, done, ◌>>◌}
use cc1352_firmware.Serial.{set_driver, frame_callback, receive_byte, receive}
use cc1352_firmware.Serial.Ordering.{after, receive-append}

-- a callback that does nothing
abbrev no_callback : Bytes → ℕ → Unit {0} → Unit {0}
no_callback payload address u = u

module _ {k : Kernel} (fuel : ℕ) where
  receive_byte_plain :
      (b : ℕ) (w : World k)
      → b ≢ hdlc_frame
      → receive_byte fuel b w
        ≡ done tt (record w {
          hdlc_driver = (hdlc_rx_input_byte no_callback k.crc16_ccitt w.hdlc_driver b tt).0;
        })
  unfolding receive_byte hdlc_rx_input_byte
  receive_byte_plain b w ne = ground (arith, ==-ne b hdlc_frame ne)

  receive_plain :
      (bs : Bytes) (w : World k)
      → All (λ b. b ≢ hdlc_frame) bs
      → receive fuel bs w
        ≡ done tt (record w {
          hdlc_driver = (hdlc_process_buffer no_callback k.crc16_ccitt w.hdlc_driver bs tt).0;
        })
  unfolding receive hdlc_process_buffer
  receive_plain [] w h = refl
  receive_plain (b ∷ bs) w h =
      let d = (hdlc_rx_input_byte no_callback k.crc16_ccitt w.hdlc_driver b tt).0 in
      rw (◌>>◌, receive_byte_plain b w h.0) (receive_plain bs (record w { hdlc_driver = d }) h.1)

  receive_byte_opening :
      (w : World k) → w.hdlc_driver.rx_buffer_len ≡ 0 → receive_byte fuel hdlc_frame w ≡ done tt w
  unfolding receive_byte
  receive_byte_opening w e =
      rw
        (hdlc_rx_input_byte_opening (frame_callback fuel) k.crc16_ccitt w.hdlc_driver (done tt w) e)
        refl

  receive_one : (b : ℕ) (w : World k) → receive fuel (b ∷ []) w ≡ receive_byte fuel b w
  unfolding receive
  receive_one b w = elim (Outcome-cases (receive_byte fuel b w)) [
    | inl (e, f) ↦ rw (◌>>◌, f) refl
    | inr (u, w', f) ↦ rw (◌>>◌, f) refl
  ]

  -- Between two delimiters the bytes are read, and then the frame is closed.
  receive_delimited :
      (bs : Bytes) (w : World k)
      → w.hdlc_driver.rx_buffer_len ≡ 0
      → w.hdlc_driver.next_escaped ≡ false
      → receive fuel (hdlc_frame ∷ (escape_all bs ++ hdlc_frame ∷ [])) w
        ≡ receive_byte fuel hdlc_frame
            (record w { hdlc_driver = push_all k.crc16_ccitt w.hdlc_driver bs })
  unfolding receive
  receive_delimited bs w e h =
      let body = escape_all bs ++ hdlc_frame ∷ [] in
      let opened : receive fuel (hdlc_frame ∷ body) w ≡ receive fuel body w =
        rw (◌>>◌, receive_byte_opening w e) refl in
      let read = hdlc_process_buffer-escape_all no_callback k.crc16_ccitt w.hdlc_driver bs tt h in
      let plain : receive fuel (escape_all bs) w
          ≡ done tt (record w { hdlc_driver = push_all k.crc16_ccitt w.hdlc_driver bs }) =
        receive_plain (escape_all bs) w (escape_all-ne_frame bs)
        ∙ ap (λ (r : HdlcDriver × Unit {0}). done tt (record w { hdlc_driver = r.0 })) read in
      opened
      ∙ receive-append fuel (escape_all bs) (hdlc_frame ∷ []) w
      ∙ ap (after fuel (hdlc_frame ∷ [])) plain
      ∙ receive_one hdlc_frame (record w { hdlc_driver = push_all k.crc16_ccitt w.hdlc_driver bs })

  receive_byte_closing :
      {d' : HdlcDriver} {o : Outcome k (Unit {0})} (d : HdlcDriver) (w : World k)
      → hdlc_rx_input_byte
          (frame_callback fuel)
          k.crc16_ccitt
          d
          hdlc_frame
          (done tt (record w { hdlc_driver = d }))
        ≡ (d', o)
      → receive_byte fuel hdlc_frame (record w { hdlc_driver = d }) ≡ set_driver d' o
  unfolding receive_byte
  receive_byte_closing d w e = rw e refl

  -- Under the laws of the checksum, a frame with an odd control byte and a payload that leaves room
  -- for address, control and checksum, received by an idle driver: `hdlc_process_complete_frame`
  -- runs once, with the payload and the address, and leaves the driver idle.
  pub receive-hdlc_block_send_sync :
      CrcLaws k.crc16_ccitt
      → (sender : HdlcDriver) (buffer : Bytes) (address control : ℕ) (w : World k)
      → IsIdle w.hdlc_driver
      → All IsByte buffer
      → IsByte address
      → IsByte control
      → control % 2 ≡ 1
      → length buffer + 4 ≤ hdlc_max_block_size
      → (d d' : HdlcDriver) × IsIdle d'
        × (receive fuel (hdlc_block_send_sync k.crc16_ccitt sender buffer address control) w
            ≡ set_driver d'
                (frame_callback fuel buffer address (done tt (record w { hdlc_driver = d }))))
  receive-hdlc_block_send_sync laws sender buffer address control w idle bytes ha hc odd fits =
      let crc = k.crc16_ccitt in
      let check = fcs crc (address ∷ control ∷ buffer) in
      let all = address ∷ control ∷ (buffer ++ check) in
      let full = push_all crc w.hdlc_driver all in
      let d' : HdlcDriver = record full { crc = 0xffff; rx_buffer_len = 0 } in
      let before = done tt (record w { hdlc_driver = full }) in
      let (closed, still, _) =
        receive_closing (frame_callback fuel) crc w.hdlc_driver address control buffer check before
          idle (crc_of-fcs crc laws (address ∷ control ∷ buffer) (ha, (hc, bytes))) refl fits odd in
      let nonzero : (control == 0) ≡ false = ==-ne control 0 (λ z. absurd (omega (arith, z))) in
      (
        full,
        d',
        still,
        rw (hdlc_block_send_sync_lem crc sender buffer address control, nonzero)
            (receive_delimited all w idle.empty idle.not_escaped
              ∙ receive_byte_closing full w closed),
      )
