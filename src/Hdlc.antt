-- ===== src/Hdlc.antt =====
-- src/hdlc.c: HDLC framing over a serial line.
-- `crc16_ccitt` (the kernel's CRC library) and the two callbacks that `hdlc_init` stores are
-- parameters. What `send_frame_cb` is handed is the list of the bytes sent, in order.
-- `process_cb payload address s` is the state that the frame callback leaves; the number that it
-- returns only selects a log line. `& 1` and `& 0x07` are remainders.
pub mod Bounds
pub mod Checksum
pub mod Framing
pub mod Line
pub mod Sending
pub mod RoundTrip
mod Tests
use cc1352_firmware.Prelude.{
  ℕ, ◌+◌, ◌-◌, ◌*◌, ◌/◌, ◌%◌, Bool, true, false, ◌&&◌, ◌||◌, [], ◌∷◌, ◌++◌, bit_and, bit_xor, ltb,
  leb, ◌==◌, if◌then◌else◌, get_or, set, take, drop, Bytes, lo, hi,
}

abbrev pub hdlc_frame : ℕ
hdlc_frame = 0x7e

abbrev pub hdlc_esc : ℕ
hdlc_esc = 0x7d

-- CONFIG_BEAGLEPLAY_HDLC_MAX_BLOCK_SIZE of prj.conf
abbrev pub hdlc_max_block_size : ℕ
hdlc_max_block_size = 256

-- `struct hdlc_driver`, without the callbacks
pub record HdlcDriver : Type 0 where
  pub crc : ℕ
  pub next_escaped : Bool
  pub rx_send_seq : ℕ
  pub send_seq : ℕ
  pub rx_buffer_len : ℕ
  pub rx_buffer : Bytes

-- `hdlc_init`: the receive buffer keeps its bytes.
unfoldable pub hdlc_init : HdlcDriver → HdlcDriver
hdlc_init d = record d {
  crc = 0xffff;
  send_seq = 0;
  rx_send_seq = 0;
  next_escaped = false;
  rx_buffer_len = 0;
}

-- `hdlc_save_byte`
unfoldable pub hdlc_save_byte : HdlcDriver → ℕ → HdlcDriver
hdlc_save_byte d byte =
    let full = leb hdlc_max_block_size d.rx_buffer_len in
    let len = if full then 0 else d.rx_buffer_len in
    record d {
      crc = if full then 0xffff else d.crc;
      rx_buffer_len = (len + 1) % 65536;
      rx_buffer = set d.rx_buffer len byte;
    }

-- the bytes that stand for `byte` on the line
unfoldable pub escape_byte : ℕ → Bytes
escape_byte byte =
    if byte == hdlc_frame || byte == hdlc_esc then hdlc_esc ∷ bit_xor byte 0x20 ∷ [] else byte ∷ []

module _ (crc16_ccitt : ℕ → Bytes → ℕ) where
  -- what `uart_poll_out_crc` sends, and the checksum that it leaves
  unfoldable pub uart_poll_out_crc : ℕ → ℕ → Bytes × ℕ
  uart_poll_out_crc byte crc = (escape_byte byte, crc16_ccitt crc (byte ∷ []))

  -- the calls of `uart_poll_out_crc` for a run of bytes
  unfoldable pub poll_out_all : Bytes → ℕ → Bytes × ℕ
  poll_out_all [] crc = ([], crc)
  poll_out_all (b ∷ bs) crc =
      let (sent, crc') = uart_poll_out_crc b crc in
      let (rest, last) = poll_out_all bs crc' in (sent ++ rest, last)

  -- `hdlc_block_send_sync`: all the bytes that it sends
  unfoldable pub hdlc_block_send_sync : HdlcDriver → Bytes → ℕ → ℕ → Bytes
  hdlc_block_send_sync d buffer address control =
      let (head, crc₁) = uart_poll_out_crc address 0xffff in
      let second = if control == 0 then d.send_seq * 2 % 256 else control in
      let (ctrl, crc₂) = uart_poll_out_crc second crc₁ in
      let (body, crc₃) = poll_out_all buffer crc₂ in
      let crc_calc = bit_xor crc₃ 0xffff in
      let (low, crc₄) = uart_poll_out_crc (lo crc_calc) crc₃ in
      let (high, crc₅) = uart_poll_out_crc (hi crc_calc) crc₄ in
      (hdlc_frame ∷ []) ++ head ++ ctrl ++ body ++ low ++ high ++ (hdlc_frame ∷ [])

module _ {S : Type 0} (process_cb : Bytes → ℕ → S → S) where
  -- `hdlc_process_complete_frame`
  unfoldable pub hdlc_process_complete_frame : HdlcDriver → S → S
  hdlc_process_complete_frame d s =
      process_cb (take (d.rx_buffer_len - 4) (drop 2 d.rx_buffer)) (get_or d.rx_buffer 0 0) s

  -- `hdlc_process_frame`
  unfoldable pub hdlc_process_frame : HdlcDriver → S → HdlcDriver × S
  unfolding hdlc_process_complete_frame
  hdlc_process_frame d s =
      let ctrl = get_or d.rx_buffer 1 0 in
      let good = ltb 3 d.rx_buffer_len && d.crc == 0xf0b8 in
      let supervisory = ctrl % 2 == 0 in
      let seq = if good && supervisory then ctrl / 32 % 8 else d.rx_send_seq in
      (
        record d { rx_send_seq = seq; crc = 0xffff; rx_buffer_len = 0 },
        if good then (if supervisory then s else hdlc_process_complete_frame d s) else s,
      )

  module _ (crc16_ccitt : ℕ → Bytes → ℕ) where
    -- `hdlc_rx_input_byte`
    unfoldable pub hdlc_rx_input_byte : HdlcDriver → ℕ → S → HdlcDriver × S
    hdlc_rx_input_byte d byte s =
        if byte == hdlc_frame
        then (if d.rx_buffer_len == 0 then (d, s) else hdlc_process_frame d s)
        else if byte == hdlc_esc
        then (record d { next_escaped = true }, s)
        else (let b = if d.next_escaped then bit_xor byte 0x20 else byte in
            (
              hdlc_save_byte (record d { next_escaped = false; crc = crc16_ccitt d.crc (b ∷ []) })
                  b,
              s,
            ))

    -- `hdlc_process_buffer`
    unfoldable pub hdlc_process_buffer : HdlcDriver → Bytes → S → HdlcDriver × S
    hdlc_process_buffer d [] s = (d, s)
    hdlc_process_buffer d (b ∷ bs) s =
        let (d', s') = hdlc_rx_input_byte d b s in hdlc_process_buffer d' bs s'
