-- ===== src/Hdlc/Tests.antt =====
-- Runs of src/hdlc.c on concrete bytes.
use cc1352_firmware.Prelude.{ℕ, ◌≡◌, refl, false, [], ◌∷◌, List, arith, Bytes, replicate}
use cc1352_firmware.Hdlc.{
  HdlcDriver, escape_byte, uart_poll_out_crc, poll_out_all, hdlc_block_send_sync, hdlc_save_byte,
  hdlc_process_complete_frame, hdlc_process_frame, hdlc_rx_input_byte, hdlc_process_buffer,
}
use cc1352_firmware.Hdlc.Checksum.{crc_byte, crc16, crc16-laws}
use cc1352_firmware.Hdlc.Bounds.{IsValid, hdlc_process_buffer-IsValid}
use cc1352_firmware.Hdlc.Line.{contents}
use cc1352_firmware.Hdlc.RoundTrip.{IsIdle, hdlc_process_buffer-hdlc_block_send_sync}
use cc1352_firmware.Hdlc.Framing.{hdlc_process_buffer_escaped_delimiter}

abbrev fresh : HdlcDriver
fresh = record {
  crc = 0xffff;
  next_escaped = false;
  rx_send_seq = 0;
  send_seq = 0;
  rx_buffer_len = 0;
  rx_buffer = replicate 256 0;
}

-- The frame callback of the tests collects what it is handed.
abbrev collect : Bytes → ℕ → List (Bytes × ℕ) → List (Bytes × ℕ)
collect p a s = (p, a) ∷ s

fresh-IsIdle : IsIdle fresh
fresh-IsIdle = record { size = refl; empty = refl; fresh_crc = refl; not_escaped = refl }

fresh-IsValid : IsValid fresh
fresh-IsValid = omega arith

-- a payload with both special bytes in it
send_bytes :
    hdlc_block_send_sync crc16 fresh (0x7e ∷ 0x7d ∷ 9 ∷ []) 1 3
    ≡ 0x7e ∷ 1 ∷ 3 ∷ 0x7d ∷ 0x5e ∷ 0x7d ∷ 0x5d ∷ 9 ∷ 0x40 ∷ 0xac ∷ 0x7e ∷ []
unfolding hdlc_block_send_sync uart_poll_out_crc poll_out_all escape_byte crc16 crc_byte
send_bytes = refl

received :
    (hdlc_process_buffer collect crc16 fresh
      (hdlc_block_send_sync crc16 fresh (0x7e ∷ 0x7d ∷ 9 ∷ []) 1 3)
      []).1
    ≡ (0x7e ∷ 0x7d ∷ 9 ∷ [], 1) ∷ []
unfolding hdlc_block_send_sync uart_poll_out_crc poll_out_all escape_byte crc16 crc_byte
    hdlc_process_buffer hdlc_rx_input_byte hdlc_process_frame hdlc_process_complete_frame
    hdlc_save_byte
received = refl

hdlc_process_buffer-hdlc_block_send_sync_example :
    (d : HdlcDriver) × (hdlc_process_buffer collect crc16 fresh
        (hdlc_block_send_sync crc16 fresh (0x7e ∷ 0x7d ∷ 9 ∷ []) 1 3)
        []
      ≡ (d, (0x7e ∷ 0x7d ∷ 9 ∷ [], 1) ∷ []))
    × IsIdle d
    × (d.rx_send_seq ≡ 0)
hdlc_process_buffer-hdlc_block_send_sync_example =
    hdlc_process_buffer-hdlc_block_send_sync collect crc16 crc16-laws fresh fresh
      (0x7e ∷ 0x7d ∷ 9 ∷ []) 1 3 [] fresh-IsIdle (omega arith) (omega arith) (omega arith) refl
      (omega arith)

hdlc_process_buffer-IsValid_example :
    IsValid (hdlc_process_buffer collect crc16 fresh (1 ∷ 3 ∷ 0x7d ∷ 0x7e ∷ []) []).0
hdlc_process_buffer-IsValid_example =
    hdlc_process_buffer-IsValid collect crc16 fresh (1 ∷ 3 ∷ 0x7d ∷ 0x7e ∷ []) [] fresh-IsValid

hdlc_process_buffer_escaped_delimiter_example :
    contents (hdlc_process_buffer collect crc16 fresh (0x7d ∷ 0x7e ∷ 1 ∷ []) []).0 ≡ 0x21 ∷ []
hdlc_process_buffer_escaped_delimiter_example =
    hdlc_process_buffer_escaped_delimiter collect crc16 fresh 1 [] fresh-IsValid
      (λ e. omega (arith, e)) (λ e. omega (arith, e))
