-- ===== src/Node/Messages.antt =====
-- src/node.c: how a message is put into the stream of a node.
use cc1352_firmware.Prelude.{
  ℕ, ◌+◌, ◌-◌, ◌%◌, ◌^◌, ◌≤◌, ◌<◌, ◌≡◌, ◌⊎◌, inl, inr, refl, ap, ◌∙◌, [], ◌∷◌, ◌++◌, append_assoc,
  arith, length, take_all, Bytes, lo, hi,
}
use cc1352_firmware.Prelude.Int.{ℤ, pos, negsuc}
use cc1352_firmware.System.Kernel.{Kernel}
use cc1352_firmware.System.World.{World, Outcome, done, fault}
use cc1352_firmware.Greybus.Message.{Message, hdr_bytes, gb_hdr_payload_len, gb_message_payload_len}
use cc1352_firmware.Node.Transfer.{write_data, send_failed, gb_message_send}
use cc1352_firmware.Node.Sending.{Channel, OnlyNet, OnlyNet-trans, Delivered, write_data-Delivered}
use cc1352_firmware.Bridge.Wire.{wire}

pub in_order :
    {b c d : Bytes} (a x y z : Bytes)
    → b ≡ a ++ x
    → c ≡ b ++ y
    → d ≡ c ++ z
    → d ≡ a ++ (x ++ (y ++ z))
in_order a x y z e f g =
    g
    ∙ ap (λ s. s ++ z) (f ∙ ap (λ s. s ++ y) e)
    ∙ append_assoc (a ++ x) y z
    ∙ append_assoc a x (y ++ z)

-- The run from `start` ended with an error, or with the number `total` and `bytes` in the stream.
abbrev pub Written :
    {k : Kernel} {sock : ℤ} → Channel k sock → World k → ℕ → Bytes → Outcome k ℤ → Type 0
Written {k} c start total bytes o =
    ((e : ℕ) × (w : World k) × (o ≡ done (negsuc e) w) × OnlyNet start w)
    ⊎ ((w : World k) × (o ≡ done (pos total) w) × (c.stream w.net ≡ bytes) × OnlyNet start w)

Delivered-Written :
    {k : Kernel} {sock : ℤ} (c : Channel k sock) (start : World k) (total : ℕ) (bytes : Bytes)
    (o : Outcome k ℤ)
    → Delivered c start total bytes o
    → Written c start total bytes o
Delivered-Written c start total bytes (done (pos n) w) d =
    inr (w, ap (λ m. done (pos m) w) d.0, d.1, d.2)
Delivered-Written c start total bytes (done (negsuc e) w) d = inl (e, w, refl, d)
Delivered-Written c start total bytes (fault e) d = elim d [ ]

-- `bytes` are in the stream and the result is 0, or the rest of the run is the code for failures;
-- nothing has changed before but the network.
abbrev pub Sent : {k : Kernel} {sock : ℤ} → Channel k sock → World k → Bytes → Outcome k ℤ → Type 0
Sent {k} {sock} c start bytes o =
    ((e : ℕ) × (w : World k) × (o ≡ send_failed sock (negsuc e) w) × OnlyNet start w)
    ⊎ ((w : World k) × (o ≡ done (pos 0) w) × (c.stream w.net ≡ bytes) × OnlyNet start w)

module _ {k : Kernel} {sock : ℤ} (c : Channel k sock) where
  pub write_data-Written :
      (fuel : ℕ) (bytes : Bytes) (w : World k)
      → length bytes ≤ fuel
      → Written c w (length bytes) (c.stream w.net ++ bytes) (write_data fuel sock bytes w)
  write_data-Written fuel bytes w h =
      Delivered-Written c w (length bytes) (c.stream w.net ++ bytes) (write_data fuel sock bytes w)
        (write_data-Delivered c fuel bytes w h)

  -- Over a stream socket, whose calls fail or append at least one byte, and with fuel for its
  -- bytes, sending a message whose header gives its size either runs into the code for failures
  -- with a negative error, or returns 0 with the cport, the header, its padding as it is in the
  -- message, and the payload appended to the stream in this order, and nothing else. Nothing but
  -- the network changes, in the first case up to the code for failures.
  pub gb_message_send-Sent :
      (fuel cport : ℕ) (msg : Message) (w : World k)
      → msg.header.size ≡ 8 + length msg.payload
      → msg.header.size < 65536
      → msg.header.size ≤ fuel
      → Sent c w
          (c.stream w.net ++ wire cport msg.header msg.payload)
          (gb_message_send fuel sock msg cport w)
  unfolding gb_message_send gb_message_payload_len gb_hdr_payload_len hdr_bytes
  gb_message_send-Sent fuel cport msg w s l f =
      let len : (msg.header.size + 2 ^ 32 - 8) % 2 ^ 32 ≡ length msg.payload =
        omega (arith, s, l) in
      let all = take_all msg.payload (length msg.payload) refl in
      elim (write_data-Written fuel (lo cport ∷ hi cport ∷ []) w (omega (arith, s, f))) [
        | inl (e, w1, r1, o1) ↦ inl (e, w1, ground (arith, r1), o1)
        | inr (w1, r1, s1, o1) ↦
            elim (write_data-Written fuel (hdr_bytes msg.header) w1 (omega (arith, s, f))) [
              | inl (e, w2, r2, o2) ↦
                  inl (e, w2, ground (arith, r1, r2), OnlyNet-trans w w1 w2 o1 o2)
              | inr (w2, r2, s2, o2) ↦
                  let o = OnlyNet-trans w w1 w2 o1 o2 in
                  elim (write_data-Written fuel msg.payload w2 (omega (arith, s, f))) [
                    | inl (e, w3, r3, o3) ↦
                        inl
                          (e, w3, ground (arith, r1, r2, r3, len, all), OnlyNet-trans w w2 w3 o o3)
                    | inr (w3, r3, s3, o3) ↦ inr (
                      w3,
                      ground (arith, r1, r2, r3, len, all),
                      in_order (c.stream w.net) (lo cport ∷ hi cport ∷ []) (hdr_bytes msg.header)
                          msg.payload s1 s2 s3,
                      OnlyNet-trans w w2 w3 o o3,
                    )
                  ]
            ]
      ]
