-- ===== src/Firmware/Frames.antt =====
-- src/main.c: what a frame from the AP does.
use cc1352_firmware.Prelude.{
  take_all, ℕ, ◌+◌, ◌*◌, ◌-◌, ◌%◌, ◌^◌, ◌<◌, ◌≡◌, refl, ◌∷◌, some, arith, length, Bytes, lo, hi,
  if◌then◌else◌,
}
use cc1352_firmware.Prelude.Int.{pos, is_negative}
use cc1352_firmware.System.Kernel.{Kernel}
use cc1352_firmware.System.World.{World, fault, out_of_bounds, ◌>>=◌, return}
use cc1352_firmware.Greybus.Message.{
  MsgHdr, gb_message_alloc, gb_hdr_payload_len, gb_message_payload_len, memcpy_payload, hdr_bytes,
  in_block,
}
use cc1352_firmware.Firmware.{
  frame_byte, frame_word, hdlc_process_greybus_frame, ap_rx_submit, write_callback,
}
use cc1352_firmware.Bridge.Wire.{wire}
use cc1352_firmware.Bridge.Send.{connection_send}

word_bytes : (n : ℕ) → n < 65536 → lo n + 256 * hi n ≡ n
word_bytes n h = omega arith

module _ {k : Kernel} where
  -- A frame of up to 65535 bytes whose header gives a size below the eight bytes of the header
  -- itself is not refused: if the heap hands out a block of that size, the header is written past
  -- the block's end.
  pub hdlc_process_greybus_frame_short :
      (fuel c₀ c₁ size type result i₀ i₁ p : ℕ) (rest : Bytes) (h : k.Heap) (w : World k)
      → size < 8
      → length rest + 10 < 65536
      → k.k_heap_alloc w.heap size ≡ some (p, h)
      → hdlc_process_greybus_frame fuel
          (c₀ ∷ c₁ ∷ size ∷ 0 ∷ i₀ ∷ i₁ ∷ type ∷ result ∷ 0 ∷ 0 ∷ rest)
          w
        ≡ fault out_of_bounds
  unfolding hdlc_process_greybus_frame frame_byte frame_word gb_message_alloc gb_hdr_payload_len
  hdlc_process_greybus_frame_short fuel c₀ c₁ size type result i₀ i₁ p rest h w s l e =
      let wrap : (8 + (size + 256 * 0 + 2 ^ 32 - 8) % 2 ^ 32) % 2 ^ 32 ≡ size = omega arith in
      ground (arith, wrap, e)

  -- A message in the form in which it goes over the line, its size field being that of header and
  -- payload, is read back, each field of the header and the payload, and handed to
  -- `connection_send` for the AP, on every state in which the heap has room for it. The padding of
  -- the header is not read: the message has what its block of memory held. A negative status of
  -- `connection_send` is what the frame handler returns, and 0 otherwise.
  pub hdlc_process_greybus_frame-wire :
      (fuel cport p : ℕ) (hdr : MsgHdr) (payload : Bytes) (h : k.Heap) (w : World k)
      → cport < 65536
      → hdr.size ≡ 8 + length payload
      → hdr.size < 65536
      → hdr.operation_id < 65536
      → k.k_heap_alloc w.heap hdr.size ≡ some (p, h)
      → hdlc_process_greybus_frame fuel (wire cport hdr payload) w
        ≡ (do
          ret ←
              connection_send (write_callback fuel) 1 cport (record {
                ptr = p;
                block = hdr.size;
                header = in_block k h p hdr;
                payload = payload;
              })
          return (if is_negative ret then ret else pos 0))
            (record w { heap = h })
  unfolding hdlc_process_greybus_frame frame_byte frame_word gb_message_alloc gb_hdr_payload_len
      gb_message_payload_len memcpy_payload ap_rx_submit hdr_bytes
  hdlc_process_greybus_frame-wire fuel cport p hdr payload h w c s l o e =
      let len : (hdr.size + 2 ^ 32 - 8) % 2 ^ 32 ≡ length payload = omega (arith, s, l) in
      let block : (8 + length payload) % 2 ^ 32 ≡ hdr.size = omega (arith, s, l) in
      let size : hdr.size % 65536 ≡ hdr.size = omega (arith, l) in
      ground (
        arith,
        word_bytes cport c,
        word_bytes hdr.size l,
        word_bytes hdr.operation_id o,
        len,
        block,
        size,
        s,
        e,
        take_all payload (length payload) refl,
      )
