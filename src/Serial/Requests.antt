-- ===== src/Serial/Requests.antt =====
-- The firmware from end to end: a request of the AP that arrives on the serial line is answered on
-- the serial line. It goes through src/hdlc.c, src/main.c, src/greybus_messages.c, src/apbridge.c,
-- src/svc.c and src/ap.c.
use cc1352_firmware.Prelude.{
  ℕ, ◌+◌, ◌≤◌, ◌<◌, ◌≡◌, refl, ◌∙◌, some, arith, length, get_elem?, All, Bytes, IsByte,
}
use cc1352_firmware.Prelude.Int.{pos}
use cc1352_firmware.Hdlc.{HdlcDriver, hdlc_block_send_sync}
use cc1352_firmware.Hdlc.Sending.{CrcLaws}
use cc1352_firmware.Hdlc.RoundTrip.{IsIdle}
use cc1352_firmware.System.Kernel.{Kernel}
use cc1352_firmware.System.World.{World, NodeApItem, svc_intf, done, ◌>>=◌, ◌>>◌}
use cc1352_firmware.Greybus.Message.{MsgHdr, Message, hdr_bytes, padding, in_block}
use cc1352_firmware.Bridge.Table.{node_to_ap_cport}
use cc1352_firmware.Bridge.Routing.{connection_send_connected}
use cc1352_firmware.Bridge.Wire.{wire, length-wire}
use cc1352_firmware.Svc.Answers.{Answer, answered, svc_inf_write-Answer}
use cc1352_firmware.Firmware.{write_callback, hdlc_process_complete_frame}
use cc1352_firmware.Firmware.Frames.{hdlc_process_greybus_frame-wire}
use cc1352_firmware.Serial.{set_driver, frame_callback, receive}
use cc1352_firmware.Serial.Frames.{receive-hdlc_block_send_sync}

-- A message whose fields are in range, whose header gives its size, and which fits into an HDLC
-- block.
pub record IsMessage (cport : ℕ) (hdr : MsgHdr) (payload : Bytes) : Type 0 where
  pub cport_lt : cport < 65536
  pub size_eq : hdr.size ≡ 8 + length payload
  pub fits : length payload + 14 ≤ 256
  pub id_lt : hdr.operation_id < 65536
  pub type_lt : hdr.type < 256
  pub result_lt : hdr.result < 256
  pub pad_lt : (hdr.pad.0 < 256) × (hdr.pad.1 < 256)
  pub bytes : All IsByte payload

-- The cport `cport` of the AP is connected with cport 0 of the SVC, whose responses go to `back`.
pub record IsServed {k : Kernel} (w : World k) (cport back : ℕ) : Type 0 where
  pub item : NodeApItem
  pub is_at : get_elem? w.node_ap_map cport ≡ some item
  pub is_svc : item.node_intf ≡ some svc_intf
  pub first_cport : item.node_cport ≡ 0
  pub back_is : node_to_ap_cport w.node_ap_map 0 0 ≡ pos back
  pub back_lt : back < 65536

pub wire-IsByte :
    (cport : ℕ) (hdr : MsgHdr) (payload : Bytes)
    → IsMessage cport hdr payload
    → All IsByte (wire cport hdr payload)
unfolding hdr_bytes
wire-IsByte cport hdr payload m = (
  omega arith,
  (
    omega arith,
    (
      omega arith,
      (
        omega arith,
        (
          omega arith,
          (omega arith, (m.type_lt, (m.result_lt, (m.pad_lt.0, (m.pad_lt.1, m.bytes))))),
        ),
      ),
    ),
  ),
)

module _ {k : Kernel} where
  hdlc_process_complete_frame-Answer :
      (fuel cport back p p' : ℕ) (hdr : MsgHdr) (payload answer : Bytes) (h h' : k.Heap)
      (w : World k)
      → IsMessage cport hdr payload
      → IsServed w cport back
      → Answer hdr.type answer
      → k.k_heap_alloc w.heap hdr.size ≡ some (p, h)
      → k.k_heap_alloc h (8 + length answer) ≡ some (p', h')
      → hdlc_process_complete_frame fuel (wire cport hdr payload) 1 w
        ≡ done (pos 0) (record w {
          uart = answered w back hdr (padding k h' p') answer;
          heap = k.k_heap_free (k.k_heap_free h' p') p;
        })
  unfolding hdlc_process_complete_frame write_callback
  hdlc_process_complete_frame-Answer fuel cport back p p' hdr payload answer h h' w m s a e e' =
      let msg : Message = record {
        ptr = p;
        block = hdr.size;
        header = in_block k h p hdr;
        payload = payload;
      } in
      let w' : World k = record w { heap = h } in
      let sent =
        connection_send_connected (write_callback fuel) cport msg w' s.item svc_intf s.is_at
          s.is_svc in
      let answer_it = svc_inf_write-Answer msg answer p' back h' w' a e' s.back_is s.back_lt in
      let frame =
        hdlc_process_greybus_frame-wire fuel cport p hdr payload h w m.cport_lt m.size_eq
          (omega (arith, m.size_eq, m.fits)) m.id_lt e in
      frame ∙ rw (◌>>=◌, sent, s.first_cport, answer_it) refl

  answered_driver :
      (d : HdlcDriver) (back : ℕ) (hdr : MsgHdr) (pad : ℕ × ℕ) (answer : Bytes) (w : World k)
      → answered (record w { hdlc_driver = d }) back hdr pad answer ≡ answered w back hdr pad answer
  unfolding hdlc_block_send_sync
  answered_driver d back hdr pad answer w = refl

  -- What the callback does with a request, at whatever state the driver is in
  frame_callback-Answer :
      (d d' : HdlcDriver) (fuel cport back p p' : ℕ) (hdr : MsgHdr) (payload answer : Bytes)
      (h h' : k.Heap) (w : World k)
      → IsMessage cport hdr payload
      → IsServed w cport back
      → Answer hdr.type answer
      → k.k_heap_alloc w.heap hdr.size ≡ some (p, h)
      → k.k_heap_alloc h (8 + length answer) ≡ some (p', h')
      → set_driver d'
          (frame_callback fuel (wire cport hdr payload) 1 (done tt (record w { hdlc_driver = d })))
        ≡ done tt (record w {
          hdlc_driver = d';
          uart = answered w back hdr (padding k h' p') answer;
          heap = k.k_heap_free (k.k_heap_free h' p') p;
        })
  unfolding frame_callback
  frame_callback-Answer d d' fuel cport back p p' hdr payload answer h h' w m s a e e' =
      let served : IsServed (record w { hdlc_driver = d }) cport back = record {
        item = s.item;
        is_at = s.is_at;
        is_svc = s.is_svc;
        first_cport = s.first_cport;
        back_is = s.back_is;
        back_lt = s.back_lt;
      } in
      let answer_it =
        hdlc_process_complete_frame-Answer fuel cport back p p' hdr payload answer h h'
          (record w { hdlc_driver = d }) m served a e e' in
      rw (◌>>=◌, ◌>>◌, answer_it, answered_driver d back hdr (padding k h' p') answer w) refl

  -- Under the laws of the checksum, and where the receiver is idle, the cport is connected with the
  -- SVC, and the heap has room for the request and the response: when a frame with a request that
  -- has a fixed response has arrived on the serial line, the line carries exactly one more frame,
  -- the response to it, with the padding of its header being what the response's block of memory
  -- held before. Both blocks are back in the heap, the receiver is idle again, and nothing else has
  -- changed.
  pub receive-Answer :
      (fuel cport back p p' : ℕ) (hdr : MsgHdr) (payload answer : Bytes) (h h' : k.Heap)
      (w : World k) (sender : HdlcDriver)
      → CrcLaws k.crc16_ccitt
      → IsIdle w.hdlc_driver
      → IsMessage cport hdr payload
      → IsServed w cport back
      → Answer hdr.type answer
      → k.k_heap_alloc w.heap hdr.size ≡ some (p, h)
      → k.k_heap_alloc h (8 + length answer) ≡ some (p', h')
      → (d : HdlcDriver) × IsIdle d
        × (receive fuel (hdlc_block_send_sync k.crc16_ccitt sender (wire cport hdr payload) 1 3) w
            ≡ done tt (record w {
              hdlc_driver = d;
              uart = answered w back hdr (padding k h' p') answer;
              heap = k.k_heap_free (k.k_heap_free h' p') p;
            }))
  receive-Answer fuel cport back p p' hdr payload answer h h' w sender laws idle m s a e e' =
      let (d, d', still, r) =
        receive-hdlc_block_send_sync fuel laws sender (wire cport hdr payload) 1 3 w idle
          (wire-IsByte cport hdr payload m) (omega arith) (omega arith) refl
          (omega (arith, length-wire cport hdr payload, m.fits)) in
      (
        d',
        still,
        r ∙ frame_callback-Answer d d' fuel cport back p p' hdr payload answer h h' w m s a e e',
      )
