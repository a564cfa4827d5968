-- ===== src/Invariant/Line.antt =====
-- src/hdlc.c: the serial line carries whole frames.
use cc1352_firmware.Prelude.{
  ℕ, ◌≡◌, refl, sym, ap, ◌∙◌, List, [], ◌∷◌, ◌++◌, append_assoc, All-append, Bytes,
}
use cc1352_firmware.Hdlc.{hdlc_frame, hdlc_block_send_sync}
use cc1352_firmware.Hdlc.Framing.{hdlc_block_send_sync_framed}
use cc1352_firmware.System.Kernel.{Kernel}
use cc1352_firmware.System.World.{World}
use cc1352_firmware.System.Keeps.{Keeps}
use cc1352_firmware.Bridge.Send.{send_block}
use cc1352_firmware.Invariant.{frames, IsBody, IsFramed, IsSound}

frames-append : (a b : List Bytes) → frames (a ++ b) ≡ frames a ++ frames b
frames-append [] b = refl
frames-append (x ∷ a) b = ap (◌∷◌ hdlc_frame) (
    ap (λ r. x ++ hdlc_frame ∷ r) (frames-append a b)
    ∙ sym (append_assoc x (hdlc_frame ∷ frames a) (frames b)))

IsFramed-append : (a b : Bytes) → IsFramed a → IsFramed b → IsFramed (a ++ b)
IsFramed-append a b (xs, e, h) (ys, f, g) =
    (xs ++ ys, rw (e, f) (sym (frames-append xs ys)), All-append IsBody xs ys h g)

module _ {k : Kernel} where
  with_line :
      (w : World k) (uart : Bytes) → IsSound w → IsFramed uart → IsSound (record w { uart = uart })
  with_line w uart s h = record {
    table = s.table;
    operation_ids = s.operation_ids;
    interface_ids = s.interface_ids;
    interfaces = s.interfaces;
    cache = s.cache;
    cached = s.cached;
    driver = s.driver;
    line = h;
  }

  block-IsFramed :
      (w : World k) (buffer : Bytes) (address control : ℕ)
      → IsFramed (hdlc_block_send_sync k.crc16_ccitt w.hdlc_driver buffer address control)
  block-IsFramed w buffer address control =
      let (body, e, h, l) =
        hdlc_block_send_sync_framed k.crc16_ccitt w.hdlc_driver buffer address control in
      (body ∷ [], e, (h, tt))

  pub send_block-Keeps :
      (buffer : Bytes) (address control : ℕ)
      → Keeps (IsSound {k = k}) (send_block buffer address control)
  unfolding send_block
  send_block-Keeps buffer address control = record {
    kept = λ w s.
        with_line w _ s (IsFramed-append w.uart _ s.line (block-IsFramed w buffer address control));
  }
