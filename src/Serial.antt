-- ===== src/Serial.antt =====
-- src/main.c and src/hdlc.c: the serial line, from the interrupt to the frames. The kernel's ring
-- buffer lies between the interrupt, which puts bytes in, and the work queue, which takes them out.
pub mod Ring
pub mod Ordering
pub mod Draining
pub mod Frames
pub mod Requests
pub mod Forwarding
use cc1352_firmware.Prelude.{
  ℕ, zero, suc, ◌+◌, Bool, true, false, not, ◌&&◌, [], ◌∷◌, ◌++◌, ◌==◌, if◌then◌else◌, length,
  Bytes,
}
use cc1352_firmware.Prelude.Int.{ℤ, pos, negsuc, is_negative, minus_enodev}
use cc1352_firmware.Hdlc.{HdlcDriver, hdlc_init, hdlc_rx_input_byte}
use cc1352_firmware.System.Kernel.{Kernel}
use cc1352_firmware.System.World.{World, Outcome, done, fault, M, ◌>>=◌, ◌>>◌, return, gets, modify}
use cc1352_firmware.Firmware.{hdlc_process_complete_frame, tcp_discovery_stop}
use cc1352_firmware.Serial.Ring.{RingBuf}

abbrev pub hdlc_rx_buf_size : ℕ
hdlc_rx_buf_size = 1024

abbrev pub set_driver : {k : Kernel} → HdlcDriver → Outcome k (Unit {0}) → Outcome k (Unit {0})
set_driver d (done u w) = done u (record w { hdlc_driver = d })
set_driver d (fault e) = fault e

module _ {k : Kernel} where
  -- `process_callback_frame_cb`, whose result only selects a log line
  unfoldable pub frame_callback : ℕ → Bytes → ℕ → Outcome k (Unit {0}) → Outcome k (Unit {0})
  frame_callback fuel payload address o = elim o [
    | fault e ↦ fault e
    | done u w ↦ (do hdlc_process_complete_frame fuel payload address; return tt) w
  ]

  -- One byte through `hdlc_rx_input_byte` with the static driver. The callback runs before the
  -- driver is reset, so it sees the driver as it was before the byte.
  unfoldable pub receive_byte : ℕ → ℕ → M k (Unit {0})
  receive_byte fuel b w =
      let (d, o) =
        hdlc_rx_input_byte (frame_callback fuel) k.crc16_ccitt w.hdlc_driver b (done tt w) in
      set_driver d o

  -- `hdlc_process_buffer` on the static driver
  unfoldable pub receive : ℕ → Bytes → M k (Unit {0})
  receive fuel [] = return tt
  receive fuel (b ∷ bs) = do receive_byte fuel b; receive fuel bs

  -- `hdlc_send_callback`: one `uart_poll_out` for each byte
  unfoldable pub hdlc_send_callback : Bytes → M k ℤ
  hdlc_send_callback [] = return (pos 0)
  hdlc_send_callback (b ∷ bs) = do
    modify (λ w. record w { uart = w.uart ++ b ∷ [] })
    n ← hdlc_send_callback bs
    return (elim n [ pos m ↦ pos (suc m) | negsuc e ↦ negsuc e ])

  -- `main` up to the point where it sleeps for ever; the answers of the serial driver are given
  unfoldable pub main : Bool → ℤ → M k ℤ
  main device_is_ready uart_irq_callback_set = do
    tcp_discovery_stop
    if not device_is_ready then return minus_enodev else (do
      modify (λ w. record w { hdlc_driver = hdlc_init w.hdlc_driver })
      if is_negative uart_irq_callback_set then return uart_irq_callback_set else return (pos 0))

-- What the serial driver answers in one interrupt; `uart_fifo_read` is asked for at most so many
-- bytes, and hands over those that it has read.
pub record Interrupt : Type 0 where
  pub uart_irq_update : Bool
  pub uart_irq_rx_ready : Bool
  pub uart_fifo_read : ℕ → ℤ × Bytes

-- The serial line: the state that the work queue has left, or its fault; the ring buffer; and
-- whether the work item is in the queue.
pub record Line (k : Kernel) (r : RingBuf) : Type 0 where
  pub state : Outcome k (Unit {0})
  pub ring : r.Ring
  pub queued : Bool

module _ {k : Kernel} {r : RingBuf} where
  unfoldable pub hdlc_rx_start : Line k r → ℕ × Line k r
  hdlc_rx_start l =
      let (n, ring) = r.ring_buf_put_claim l.ring hdlc_rx_buf_size in (n, record l { ring = ring })

  unfoldable pub hdlc_rx_finish : ℕ → Line k r → ℤ × Line k r
  hdlc_rx_finish written l =
      let (ret, ring) = r.ring_buf_put_finish l.ring written in
      (ret, record l { ring = ring; queued = true })

  -- the bytes that `uart_fifo_read` writes at the place that was claimed
  unfoldable pub fifo_to_ring : Bytes → Line k r → Line k r
  fifo_to_ring bytes l = record l { ring = r.claimed_write l.ring bytes }

  unfoldable pub serial_callback : Interrupt → Line k r → Line k r
  unfolding hdlc_rx_start hdlc_rx_finish fifo_to_ring
  serial_callback i l =
      if not i.uart_irq_update && not i.uart_irq_rx_ready
      then l
      else (let (n, claimed) = hdlc_rx_start l in
          if n == 0
          then claimed
          else (let (ret, bytes) = i.uart_fifo_read n in
              elim ret [
                | negsuc e ↦ claimed
                | pos m ↦ (hdlc_rx_finish m (fifo_to_ring bytes claimed)).1
              ]))

  -- The work item, which the queue has taken out before it runs it.
  unfoldable pub hdlc_rx_handler : ℕ → Line k r → Line k r
  hdlc_rx_handler fuel l =
      let (bytes, claimed) = r.ring_buf_get_claim l.ring hdlc_rx_buf_size in
      let (ret, ring) = r.ring_buf_get_finish claimed (length bytes) in
      record {
        state = elim l.state [ done u w ↦ receive fuel bytes w | fault e ↦ fault e ];
        ring = ring;
        queued = false;
      }
