-- ===== src/Serial/Forwarding.antt =====
-- The firmware as a bridge: a message of the AP that arrives on the serial line goes to a node. It
-- goes through src/hdlc.c, src/main.c, src/greybus_messages.c, src/apbridge.c and src/node.c.
use cc1352_firmware.Prelude.{ℕ, ◌≤◌, ◌≡◌, refl, ◌∙◌, ◌++◌, some, arith, get_elem?, Bytes}
use cc1352_firmware.Prelude.Int.{ℤ, pos}
use cc1352_firmware.Hdlc.{HdlcDriver, hdlc_block_send_sync}
use cc1352_firmware.Hdlc.Sending.{CrcLaws}
use cc1352_firmware.Hdlc.RoundTrip.{IsIdle}
use cc1352_firmware.System.Kernel.{Kernel}
use cc1352_firmware.System.World.{World, IntfPtr, NodeApItem, done, ◌>>=◌, ◌>>◌}
use cc1352_firmware.Greybus.Message.{MsgHdr, Message, in_block}
use cc1352_firmware.Bridge.Routing.{connection_send_connected}
use cc1352_firmware.Bridge.Wire.{wire, length-wire}
use cc1352_firmware.Node.Sending.{Channel}
use cc1352_firmware.Node.Forwarding.{IsReliable, HasSocket, node_inf_write_reliable}
use cc1352_firmware.Firmware.{write_callback, hdlc_process_complete_frame}
use cc1352_firmware.Firmware.Frames.{hdlc_process_greybus_frame-wire}
use cc1352_firmware.Serial.{set_driver, frame_callback, receive}
use cc1352_firmware.Serial.Frames.{receive-hdlc_block_send_sync}
use cc1352_firmware.Serial.Requests.{IsMessage, wire-IsByte}

-- The cport of the AP is connected with `node_cport` of the node whose interface is at `p`, which
-- has the socket.
pub record IsLinked {k : Kernel} (w : World k) (cport node_cport p : ℕ) (sock : ℤ) : Type 0 where
  pub item : NodeApItem
  pub is_at : get_elem? w.node_ap_map cport ≡ some item
  pub is_node : item.node_intf ≡ some (IntfPtr.node_intf p)
  pub cport_eq : item.node_cport ≡ node_cport
  pub socket : HasSocket w p sock

module _ {k : Kernel} (sock : ℤ) (reliable : IsReliable k sock) (c : Channel k sock) where
  hdlc_process_complete_frame-forwarded :
      (fuel cport node_cport p q : ℕ) (hdr : MsgHdr) (payload : Bytes) (h : k.Heap) (w : World k)
      → IsMessage cport hdr payload
      → IsLinked w cport node_cport p sock
      → hdr.size ≤ fuel
      → k.k_heap_alloc w.heap hdr.size ≡ some (q, h)
      → (n : k.Net) × (hdlc_process_complete_frame fuel (wire cport hdr payload) 1 w
          ≡ done (pos 0) (record w { net = n; heap = k.k_heap_free h q }))
        × (c.stream n ≡ c.stream w.net ++ wire node_cport (in_block k h q hdr) payload)
  unfolding hdlc_process_complete_frame write_callback
  hdlc_process_complete_frame-forwarded fuel cport node_cport p q hdr payload h w m l f e =
      let msg : Message = record {
        ptr = q;
        block = hdr.size;
        header = in_block k h q hdr;
        payload = payload;
      } in
      let w' : World k = record w { heap = h } in
      let socket : HasSocket w' p sock = record {
        intf = l.socket.intf;
        found = l.socket.found;
        block = l.socket.block;
      } in
      let sent =
        connection_send_connected (write_callback fuel) cport msg w' l.item (IntfPtr.node_intf p)
          l.is_at l.is_node in
      let (n, written, stream) =
        node_inf_write_reliable sock reliable c fuel p node_cport msg w' socket m.size_eq
          (omega (arith, m.size_eq, m.fits)) f in
      let frame =
        hdlc_process_greybus_frame-wire fuel cport q hdr payload h w m.cport_lt m.size_eq
          (omega (arith, m.size_eq, m.fits)) m.id_lt e in
      (n, frame ∙ rw (◌>>=◌, sent, l.cport_eq, written) refl, stream)

  frame_callback-forwarded :
      (d d' : HdlcDriver) (fuel cport node_cport p q : ℕ) (hdr : MsgHdr) (payload : Bytes)
      (h : k.Heap) (w : World k)
      → IsMessage cport hdr payload
      → IsLinked w cport node_cport p sock
      → hdr.size ≤ fuel
      → k.k_heap_alloc w.heap hdr.size ≡ some (q, h)
      → (n : k.Net) × (set_driver d' (
            frame_callback fuel (wire cport hdr payload) 1 (done tt (record w { hdlc_driver = d })))
          ≡ done tt (record w { hdlc_driver = d'; net = n; heap = k.k_heap_free h q }))
        × (c.stream n ≡ c.stream w.net ++ wire node_cport (in_block k h q hdr) payload)
  unfolding frame_callback
  frame_callback-forwarded d d' fuel cport node_cport p q hdr payload h w m l f e =
      let before : World k = record w { hdlc_driver = d } in
      let linked : IsLinked before cport node_cport p sock = record {
        item = l.item;
        is_at = l.is_at;
        is_node = l.is_node;
        cport_eq = l.cport_eq;
        socket = record { intf = l.socket.intf; found = l.socket.found; block = l.socket.block };
      } in
      let (n, forwarded, stream) =
        hdlc_process_complete_frame-forwarded fuel cport node_cport p q hdr payload h before m
          linked f e in
      (n, rw (◌>>=◌, ◌>>◌, forwarded) refl, stream)

  -- Under the laws of the checksum, where the receiver is idle, the cport is connected with a cport
  -- of a node, over a stream socket that does not fail, with fuel for the message's bytes, and
  -- where the heap has room: when a frame with a message has arrived on the serial line, the stream
  -- of the node has exactly the message more, with the cport of the node, the fields of the header
  -- and the payload as they are. The padding of the header is not kept: its two bytes are what the
  -- message's block of memory held. That memory is back in the heap, the receiver is idle again,
  -- and nothing else has changed.
  pub receive-forwarded :
      (fuel cport node_cport p q : ℕ) (hdr : MsgHdr) (payload : Bytes) (h : k.Heap) (w : World k)
      (sender : HdlcDriver)
      → CrcLaws k.crc16_ccitt
      → IsIdle w.hdlc_driver
      → IsMessage cport hdr payload
      → IsLinked w cport node_cport p sock
      → hdr.size ≤ fuel
      → k.k_heap_alloc w.heap hdr.size ≡ some (q, h)
      → (d : HdlcDriver) × (n : k.Net) × IsIdle d
        × (receive fuel (hdlc_block_send_sync k.crc16_ccitt sender (wire cport hdr payload) 1 3) w
            ≡ done tt (record w { hdlc_driver = d; net = n; heap = k.k_heap_free h q }))
        × (c.stream n ≡ c.stream w.net ++ wire node_cport (in_block k h q hdr) payload)
  receive-forwarded fuel cport node_cport p q hdr payload h w sender laws idle m l f e =
      let (d, d', still, r) =
        receive-hdlc_block_send_sync fuel laws sender (wire cport hdr payload) 1 3 w idle
          (wire-IsByte cport hdr payload m) (omega arith) (omega arith) refl
          (omega (arith, length-wire cport hdr payload, m.fits)) in
      let (n, forwarded, stream) =
        frame_callback-forwarded d d' fuel cport node_cport p q hdr payload h w m l f e in
      (d', n, still, r ∙ forwarded, stream)
