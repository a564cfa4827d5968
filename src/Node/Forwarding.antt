-- ===== src/Node/Forwarding.antt =====
-- src/node.c: a message goes to a node over a socket that does not fail.
use cc1352_firmware.Prelude.{
  ℕ, zero, suc, ◌+◌, ◌-◌, ◌%◌, ◌^◌, ◌≤◌, ◌<◌, ◌≡◌, ◌≢◌, inl, inr, refl, ap, ◌∙◌, [], ◌∷◌, ◌++◌,
  some, arith, length, take_all, drop, Bytes, lo, hi,
}
use cc1352_firmware.Prelude.Int.{ℤ, pos, negsuc}
use cc1352_firmware.Prelude.Assoc.{lookup}
use cc1352_firmware.System.Kernel.{Kernel}
use cc1352_firmware.System.World.{World, NodeInterface, done, ◌>>=◌}
use cc1352_firmware.Greybus.Message.{
  Message, hdr_bytes, gb_hdr_payload_len, gb_message_payload_len, gb_message_dealloc,
}
use cc1352_firmware.Node.Transfer.{
  zsock_send, write_from, write_data, gb_message_send, node_inf_write,
}
use cc1352_firmware.Node.Sending.{ℤ-cases, Channel, OnlyNet, OnlyNet-trans}
use cc1352_firmware.Node.Messages.{write_data-Written, in_order}
use cc1352_firmware.Bridge.Wire.{wire}

-- No call that sends on the socket fails.
abbrev pub IsReliable : Kernel → ℤ → Type 0
IsReliable k sock =
    (n : k.Net) (b : ℕ) (bytes : Bytes) (e : ℕ) → (k.zsock_send n sock (b ∷ bytes)).0 ≢ negsuc e

-- The interface at `p` is live, and so is its control block, which has the socket.
pub record HasSocket {k : Kernel} (w : World k) (p : ℕ) (sock : ℤ) : Type 0 where
  pub intf : NodeInterface
  pub found : lookup p w.interfaces ≡ some intf
  pub block : lookup intf.ctrl_data w.node_control_data ≡ some sock

module _ {k : Kernel} (sock : ℤ) (reliable : IsReliable k sock) where
  write_from_reliable :
      (fuel : ℕ) (rest : Bytes) (transmitted e : ℕ) (w w' : World k)
      → write_from fuel sock rest transmitted w ≢ done (negsuc e) w'
  unfolding write_from zsock_send
  write_from_reliable fuel [] transmitted e w w' f = absurd (ground (arith, f))
  write_from_reliable zero (b ∷ rest) transmitted e w w' f = absurd (ground (arith, f))
  write_from_reliable (suc fuel) (b ∷ rest) transmitted e w w' f =
      elim (ℤ-cases (k.zsock_send w.net sock (b ∷ rest)).0) [
        | inl (err, failed) ↦ reliable w.net b rest err failed
        | inr (sent, ok) ↦
            let next = record w { net = (k.zsock_send w.net sock (b ∷ rest)).1 } in
            write_from_reliable fuel (drop sent (b ∷ rest)) (transmitted + sent) e next w'
              (rw (ok, ◌>>=◌) at f)
      ]

  module _ (c : Channel k sock) where
    write_data_reliable :
        (fuel : ℕ) (bytes : Bytes) (w : World k)
        → length bytes ≤ fuel
        → (w' : World k) × (write_data fuel sock bytes w ≡ done (pos (length bytes)) w')
          × (c.stream w'.net ≡ c.stream w.net ++ bytes)
          × OnlyNet w w'
    unfolding write_data
    write_data_reliable fuel bytes w h = elim (write_data-Written c fuel bytes w h) [
      | inl (e, w', failed, o) ↦ absurd (write_from_reliable fuel bytes 0 e w w' failed)
      | inr written ↦ written
    ]

    gb_message_send_reliable :
        (fuel cport : ℕ) (msg : Message) (w : World k)
        → msg.header.size ≡ 8 + length msg.payload
        → msg.header.size < 65536
        → msg.header.size ≤ fuel
        → (n : k.Net) × (gb_message_send fuel sock msg cport w
            ≡ done (pos 0) (record w { net = n }))
          × (c.stream n ≡ c.stream w.net ++ wire cport msg.header msg.payload)
    unfolding gb_message_send gb_message_payload_len gb_hdr_payload_len hdr_bytes
    gb_message_send_reliable fuel cport msg w s l f =
        let len : (msg.header.size + 2 ^ 32 - 8) % 2 ^ 32 ≡ length msg.payload =
          omega (arith, s, l) in
        let all = take_all msg.payload (length msg.payload) refl in
        let (w1, r1, s1, o1) =
          write_data_reliable fuel (lo cport ∷ hi cport ∷ []) w (omega (arith, s, f)) in
        let (w2, r2, s2, o2) =
          write_data_reliable fuel (hdr_bytes msg.header) w1 (omega (arith, s, f)) in
        let (w3, r3, s3, o3) = write_data_reliable fuel msg.payload w2 (omega (arith, s, f)) in
        let only = OnlyNet-trans w w2 w3 (OnlyNet-trans w w1 w2 o1 o2) o3 in
        (
          w3.net,
          ground (arith, r1, r2, r3, len, all) ∙ ap (done (pos 0)) only,
          in_order (c.stream w.net) (lo cport ∷ hi cport ∷ []) (hdr_bytes msg.header) msg.payload s1
              s2 s3,
        )

    -- the whole message is in the stream, and its memory is given back
    pub node_inf_write_reliable :
        (fuel p cport : ℕ) (msg : Message) (w : World k)
        → HasSocket w p sock
        → msg.header.size ≡ 8 + length msg.payload
        → msg.header.size < 65536
        → msg.header.size ≤ fuel
        → (n : k.Net) × (node_inf_write fuel p msg cport w
            ≡ done (pos 0) (record w { net = n; heap = k.k_heap_free w.heap msg.ptr }))
          × (c.stream n ≡ c.stream w.net ++ wire cport msg.header msg.payload)
    unfolding node_inf_write gb_message_dealloc
    node_inf_write_reliable fuel p cport msg w h s l f =
        let (n, sent, stream) = gb_message_send_reliable fuel cport msg w s l f in
        (n, ground (arith, h.found, h.block, sent), stream)
