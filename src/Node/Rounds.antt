-- ===== src/Node/Rounds.antt =====
-- src/node.c: what `node_rx_thread_entry` does with a socket that can be read.
use cc1352_firmware.Prelude.{
  ℕ, ◌+◌, ◌≤◌, ◌<◌, ◌≡◌, ◌≢◌, refl, ◌∙◌, arith, ◌++◌, false, some, length, get_elem?, Bytes,
}
use cc1352_firmware.Prelude.Int.{ℤ, pos}
use cc1352_firmware.System.Kernel.{Kernel}
use cc1352_firmware.System.World.{World, NodeItem, done, ◌>>=◌, ◌>>◌, return}
use cc1352_firmware.Greybus.Message.{MsgHdr, Message, in_block}
use cc1352_firmware.Greybus.Interface.{ap_inf_id}
use cc1352_firmware.Hdlc.{hdlc_block_send_sync}
use cc1352_firmware.Bridge.Table.{node_to_ap_cport}
use cc1352_firmware.Bridge.Send.{send_to_ap}
use cc1352_firmware.Bridge.Wire.{wire, send_to_ap_lem}
use cc1352_firmware.Node.Cache.{node_cache_find_by_sock}
use cc1352_firmware.Node.Receive.{node_readable}
use cc1352_firmware.Node.Receiving.{Source, IsWaiting, gb_message_receive-wire}

-- The node at `at` in the cache has the socket.
pub record IsNode {k : Kernel} (w : World k) (sock : ℤ) (at : ℕ) (item : NodeItem) : Type 0 where
  pub found : node_cache_find_by_sock w.node_cache sock ≡ some at
  pub is_at : get_elem? w.node_cache at ≡ some item

module _ {k : Kernel} {sock : ℤ} (c : Source k sock) where
  -- Where no peer was found to be gone, a message that waits on the stream socket of a node is
  -- received and sent to the AP from the node's id and the message's cport; a failure of that is
  -- passed over.
  node_readable-wire :
      (fuel cport p at : ℕ) (hdr : MsgHdr) (payload rest : Bytes) (h : k.Heap) (w : World k)
      (item : NodeItem)
      → IsWaiting c cport p hdr payload rest h w
      → 8 + length payload ≤ fuel
      → IsNode w sock at item
      → (n : k.Net) × (node_readable fuel sock false w
          ≡ (do
            send_to_ap item.id cport (record {
              ptr = p;
              block = hdr.size;
              header = in_block k h p hdr;
              payload = payload;
            })
            return false)
              (record w { net = n; heap = h }))
        × (c.stream n ≡ rest)
  unfolding node_readable
  node_readable-wire fuel cport p at hdr payload rest h w item i f node =
      let (n, e, s) = gb_message_receive-wire c fuel cport p hdr payload rest false h w i f in
      (n, rw (node.found, node.is_at, e, ◌>>=◌) refl, s)

  -- Where no peer was found to be gone: a message that waits on the stream socket of a node, which
  -- is not the AP, fits into an HDLC block and whose cport of the node is connected, is received
  -- and goes out on the serial line as exactly one frame to the cport of the AP, with the fields of
  -- the header and the payload as they are. The padding of the header is not kept: its two bytes
  -- are what the message's block of memory held. The message's bytes are gone from the stream, its
  -- memory is given back, and nothing else changes.
  pub node_readable-forwarded :
      (fuel cport ap_cport p at : ℕ) (hdr : MsgHdr) (payload rest : Bytes) (h : k.Heap)
      (w : World k) (item : NodeItem)
      → IsWaiting c cport p hdr payload rest h w
      → 8 + length payload ≤ fuel
      → length payload + 10 ≤ 256
      → IsNode w sock at item
      → item.id ≢ ap_inf_id
      → node_to_ap_cport w.node_ap_map item.id cport ≡ pos ap_cport
      → ap_cport < 65536
      → (n : k.Net) × (node_readable fuel sock false w
          ≡ done false (record w {
            net = n;
            uart =
                w.uart
                ++ hdlc_block_send_sync k.crc16_ccitt w.hdlc_driver
                    (wire ap_cport (in_block k h p hdr) payload)
                    1
                    3;
            heap = k.k_heap_free h p;
          }))
        × (c.stream n ≡ rest)
  node_readable-forwarded fuel cport ap_cport p at hdr payload rest h w item i f fits node other to
        small =
      let (n, e, s) = node_readable-wire fuel cport p at hdr payload rest h w item i f node in
      let msg : Message = record {
        ptr = p;
        block = hdr.size;
        header = in_block k h p hdr;
        payload = payload;
      } in
      let sent =
        send_to_ap_lem item.id cport ap_cport msg (record w { net = n; heap = h }) other
          (record { size_is = omega (arith, i.size_eq); fits = fits }) to small in
      (n, e ∙ rw (◌>>◌, sent) refl, s)
