-- ===== src/LogBackend/Received.antt =====
-- src/hdlc_log_backend.c: what is logged arrives at the other end of the line, in order.
use cc1352_firmware.Prelude.{
  ℕ, ◌≤◌, ◌≡◌, refl, sym, ap, ◌∙◌, List, [], ◌∷◌, ◌++◌, arith, length, All, Bytes, IsByte,
  append_assoc, append-nil, All-append,
}
use cc1352_firmware.Hdlc.{HdlcDriver, hdlc_block_send_sync, hdlc_process_buffer}
use cc1352_firmware.Hdlc.Line.{hdlc_process_buffer-append}
use cc1352_firmware.Hdlc.Sending.{CrcLaws}
use cc1352_firmware.Hdlc.RoundTrip.{IsIdle, hdlc_process_buffer-hdlc_block_send_sync}
use cc1352_firmware.System.Kernel.{Kernel}
use cc1352_firmware.System.World.{World, done, fault, M, ◌>>=◌, return}
use cc1352_firmware.Bridge.Send.{send_block}
use cc1352_firmware.Firmware.{address_dbg}
use cc1352_firmware.LogBackend.{
  buffer_len, LogOutput, ApiCall, hdlc_uart_out, output, hdlc_uart_backend_process,
  hdlc_uart_backend_dropped, hdlc_uart_backend_panic, hdlc_uart_backend_init,
  hdlc_uart_backend_notify, hdlc_uart_backend_api,
}

-- bytes of the buffer of the kernel's formatting
abbrev pub IsPiece : Bytes → Type 0
IsPiece piece = (length piece ≤ buffer_len) × All IsByte piece

-- The kernel hands over no more than its buffer holds.
pub record IsBuffered (o : LogOutput) : Type 0 where
  pub processed :
      (s : o.State) (msg : o.LogMsg) (flags : ℕ)
      → All IsPiece (o.log_output_msg_process s msg flags).0
  pub dropped : (s : o.State) (cnt : ℕ) → All IsPiece (o.log_backend_std_dropped s cnt).0
  pub panic : (s : o.State) → All IsPiece (o.log_backend_std_panic s).0

-- what the kernel's formatting does in a call: the pieces that it hands over, and its new state
abbrev pub formatted : (o : LogOutput) → ApiCall o → o.State → List Bytes × o.State
formatted o (ApiCall.process msg) s = o.log_output_msg_process s msg o.log_backend_std_get_flags
formatted o (ApiCall.dropped cnt) s = o.log_backend_std_dropped s cnt
formatted o ApiCall.panic s = o.log_backend_std_panic s
formatted o ApiCall.init s = ([], s)
formatted o (ApiCall.notify event) s = ([], s)

-- the same of one call after the other
abbrev pub formatted_all : (o : LogOutput) → List (ApiCall o) → o.State → List Bytes × o.State
formatted_all o [] s = ([], s)
formatted_all o (call ∷ calls) s =
    let (pieces, s') = formatted o call s in
    let (rest, s'') = formatted_all o calls s' in (pieces ++ rest, s'')

-- one call of the log backend after the other
abbrev pub api_calls : {k : Kernel} (o : LogOutput) → List (ApiCall o) → o.State → M k o.State
api_calls o [] s = return s
api_calls o (call ∷ calls) s = do s' ← hdlc_uart_backend_api o call s; api_calls o calls s'

-- a receiver that takes one debug frame after the other
abbrev pub hand_over : {S : Type 0} → (Bytes → ℕ → S → S) → List Bytes → S → S
hand_over process_cb [] s = s
hand_over process_cb (piece ∷ pieces) s =
    hand_over process_cb pieces (process_cb piece address_dbg s)

formatted-IsPiece :
    (o : LogOutput)
    → IsBuffered o
    → (call : ApiCall o) (s : o.State) → All IsPiece (formatted o call s).0
formatted-IsPiece o b (ApiCall.process msg) s = b.processed s msg o.log_backend_std_get_flags
formatted-IsPiece o b (ApiCall.dropped cnt) s = b.dropped s cnt
formatted-IsPiece o b ApiCall.panic s = b.panic s
formatted-IsPiece o b ApiCall.init s = tt
formatted-IsPiece o b (ApiCall.notify event) s = tt

formatted_all-IsPiece :
    (o : LogOutput)
    → IsBuffered o
    → (calls : List (ApiCall o)) (s : o.State) → All IsPiece (formatted_all o calls s).0
formatted_all-IsPiece o b [] s = tt
formatted_all-IsPiece o b (call ∷ calls) s =
    All-append IsPiece (formatted o call s).0 _ (formatted-IsPiece o b call s)
      (formatted_all-IsPiece o b calls (formatted o call s).1)

module _ (crc16_ccitt : ℕ → Bytes → ℕ) (d : HdlcDriver) where
  -- the pieces on the line
  abbrev pub debug_frames : List Bytes → Bytes
  debug_frames [] = []
  debug_frames (piece ∷ pieces) =
      hdlc_block_send_sync crc16_ccitt d piece address_dbg 0x03 ++ debug_frames pieces

  debug_frames-append :
      (xs ys : List Bytes) → debug_frames (xs ++ ys) ≡ debug_frames xs ++ debug_frames ys
  debug_frames-append [] ys = refl
  debug_frames-append (x ∷ xs) ys = rw (debug_frames-append xs ys) (
      sym (
        append_assoc (hdlc_block_send_sync crc16_ccitt d x address_dbg 0x03) (debug_frames xs)
          (debug_frames ys)))

  debug_frames-received :
      {S : Type 0} (process_cb : Bytes → ℕ → S → S)
      → CrcLaws crc16_ccitt
      → (pieces : List Bytes) (receiver : HdlcDriver) (s : S) → IsIdle receiver
      → All IsPiece pieces
      → (d' : HdlcDriver) × (hdlc_process_buffer process_cb crc16_ccitt receiver
            (debug_frames pieces)
            s
          ≡ (d', hand_over process_cb pieces s))
        × IsIdle d'
  unfolding hdlc_process_buffer
  debug_frames-received process_cb laws [] receiver s idle h = (receiver, refl, idle)
  debug_frames-received process_cb laws (piece ∷ pieces) receiver s idle ((short, bytes), h) =
      let (d', e, idle', seq) =
        hdlc_process_buffer-hdlc_block_send_sync process_cb crc16_ccitt laws d receiver piece
          address_dbg 0x03 s idle bytes (omega arith) (omega arith) refl (omega arith) in
      let (d'', e', idle'') =
        debug_frames-received process_cb laws pieces d' (process_cb piece address_dbg s) idle' h in
      (
        d'',
        rw
            (
              hdlc_process_buffer-append process_cb crc16_ccitt receiver
                  (hdlc_block_send_sync crc16_ccitt d piece address_dbg 0x03) (debug_frames pieces)
                  s,
              e,
            )
            e',
        idle'',
      )

module _ {k : Kernel} {A B : Type 0} where
  bind_done :
      (m : M k A) (f : A → M k B) (a : A) (w w' : World k) → m w ≡ done a w' → (m >>= f) w ≡ f a w'
  bind_done m f a w w' e = ap (λ o. elim o [ done b v ↦ f b v | fault x ↦ fault x ]) e

module _ {k : Kernel} where
  -- the state with the pieces on the line
  abbrev logged : List Bytes → World k → World k
  logged pieces w = record w { uart = w.uart ++ debug_frames k.crc16_ccitt w.hdlc_driver pieces }

  output_lem : (pieces : List Bytes) (w : World k) → output pieces w ≡ done tt (logged pieces w)
  unfolding output hdlc_uart_out send_block
  output_lem [] w = rw (append-nil w.uart)
  output_lem (piece ∷ pieces) w =
      output_lem pieces _
      ∙ rw (
          append_assoc w.uart
            (hdlc_block_send_sync k.crc16_ccitt w.hdlc_driver piece address_dbg 0x03)
            (debug_frames k.crc16_ccitt w.hdlc_driver pieces))

  hdlc_uart_backend_api_lem :
      (o : LogOutput) (call : ApiCall o) (s : o.State) (w : World k)
      → hdlc_uart_backend_api o call s w
        ≡ done (formatted o call s).1 (logged (formatted o call s).0 w)
  unfolding hdlc_uart_backend_api hdlc_uart_backend_process hdlc_uart_backend_dropped
      hdlc_uart_backend_panic hdlc_uart_backend_init hdlc_uart_backend_notify
  hdlc_uart_backend_api_lem o (ApiCall.process msg) s w =
      let (pieces, s') = formatted o (ApiCall.process msg) s in
      bind_done (output pieces) (λ _. return s') tt w _ (output_lem pieces w)
  hdlc_uart_backend_api_lem o (ApiCall.dropped cnt) s w =
      let (pieces, s') = formatted o (ApiCall.dropped cnt) s in
      bind_done (output pieces) (λ _. return s') tt w _ (output_lem pieces w)
  hdlc_uart_backend_api_lem o ApiCall.panic s w =
      let (pieces, s') = formatted o ApiCall.panic s in
      bind_done (output pieces) (λ _. return s') tt w _ (output_lem pieces w)
  hdlc_uart_backend_api_lem o ApiCall.init s w = rw (append-nil w.uart)
  hdlc_uart_backend_api_lem o (ApiCall.notify event) s w = rw (append-nil w.uart)

  api_calls_lem :
      (o : LogOutput) (calls : List (ApiCall o)) (s : o.State) (w : World k)
      → api_calls o calls s w
        ≡ done (formatted_all o calls s).1 (logged (formatted_all o calls s).0 w)
  api_calls_lem o [] s w = rw (append-nil w.uart)
  api_calls_lem o (call ∷ calls) s w =
      let (pieces, s') = formatted o call s in
      bind_done (hdlc_uart_backend_api o call s) (api_calls o calls) s' w _
        (hdlc_uart_backend_api_lem o call s w)
      ∙ api_calls_lem o calls s' (logged pieces w)
      ∙ rw (
        append_assoc w.uart (debug_frames k.crc16_ccitt w.hdlc_driver pieces)
            (debug_frames k.crc16_ccitt w.hdlc_driver (formatted_all o calls s').0),
        ← debug_frames-append k.crc16_ccitt w.hdlc_driver pieces (formatted_all o calls s').0,
      )

  -- Where the kernel's formatting hands over pieces of bytes that fit its buffer, and under the laws
  -- of the checksum: any calls of the log backend, in any order, put bytes on the line that an idle
  -- receiver reads as exactly the pieces of all the calls, in order, each as one debug frame, and
  -- nothing else of the state of the firmware changes.
  pub api_calls-received :
      (o : LogOutput)
      → IsBuffered o
      → CrcLaws k.crc16_ccitt
      → {S : Type 0} (process_cb : Bytes → ℕ → S → S) (receiver : HdlcDriver) (st : S)
      → IsIdle receiver
      → (calls : List (ApiCall o)) (s : o.State) (w : World k)
      → let (pieces, s') = formatted_all o calls s in
        (sent : Bytes) × (d' : HdlcDriver) × (api_calls o calls s w
          ≡ done s' (record w { uart = w.uart ++ sent }))
        × (hdlc_process_buffer process_cb k.crc16_ccitt receiver sent st
            ≡ (d', hand_over process_cb pieces st))
        × IsIdle d'
  api_calls-received o buffered laws process_cb receiver st idle calls s w =
      let pieces = (formatted_all o calls s).0 in
      let (d', e, idle') =
        debug_frames-received k.crc16_ccitt w.hdlc_driver process_cb laws pieces receiver st idle
          (formatted_all-IsPiece o buffered calls s) in
      (debug_frames k.crc16_ccitt w.hdlc_driver pieces, d', api_calls_lem o calls s w, e, idle')
