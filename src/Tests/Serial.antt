-- ===== src/Tests/Serial.antt =====
-- The serial line at work, over a ring buffer of two segments.
use cc1352_firmware.Prelude.{
  ℕ, zero, suc, ◌+◌, ◌-◌, ◌≤◌, ◌≡◌, ◌≢◌, refl, sym, ap, ◌∙◌, true, false, [], ◌∷◌, ◌++◌, append-nil,
  append_assoc, arith, length, take, drop, take_all, length-take, Bytes, min,
}
use cc1352_firmware.Prelude.Int.{pos}
use cc1352_firmware.Hdlc.{HdlcDriver, hdlc_block_send_sync}
use cc1352_firmware.Hdlc.Checksum.{crc16-laws}
use cc1352_firmware.Hdlc.RoundTrip.{IsIdle}
use cc1352_firmware.System.World.{svc_intf, done}
use cc1352_firmware.Bridge.Routing.{item_of}
use cc1352_firmware.Bridge.Wire.{wire}
use cc1352_firmware.Svc.Answers.{Answer, answered}
use cc1352_firmware.Serial.{Line, Interrupt, receive, serial_callback, hdlc_rx_handler}
use cc1352_firmware.Serial.Ring.{RingBuf, IsQueue}
use cc1352_firmware.Serial.Ordering.{after, taken, IsSound, Run, Run-in_order}
use cc1352_firmware.Serial.Draining.{runs, hdlc_rx_handler_drains, hdlc_rx_handler_rest}
use cc1352_firmware.Serial.Requests.{IsMessage, IsServed, receive-Answer}
use cc1352_firmware.Tests.Samples.{toy, connected, to_cport_0, ping_hdr}

-- The bytes before the end of the buffer, those after it, and those at a place that is claimed; 8
-- bytes have room.
record Segments : Type 0 where
  first : Bytes
  second : Bytes
  written : Bytes

abbrev room : Segments → ℕ
room s = 8 - (length s.first + length s.second)

-- When the bytes before the end are gone, the others come first.
abbrev wrapped : Segments → Segments
wrapped s = elim s.first [
  | [] ↦ record { first = s.second; second = []; written = s.written }
  | x ∷ xs ↦ s
]

abbrev two_segments : RingBuf
two_segments = record {
  Ring = Segments;
  ring_buf_put_claim = λ s size. (min size (room s), s);
  claimed_write = λ s bytes. record s { written = bytes };
  ring_buf_put_finish = λ s n.
      (pos 0, record { first = s.first; second = s.second ++ take n s.written; written = [] });
  ring_buf_get_claim = λ s size. (take size (wrapped s).first, wrapped s);
  ring_buf_get_finish = λ s n. (pos 0, record s { first = drop n s.first });
}

take-drop : (n : ℕ) (xs : Bytes) → xs ≡ take n xs ++ drop (length (take n xs)) xs
take-drop zero xs = refl
take-drop (suc n) [] = refl
take-drop (suc n) (x ∷ xs) = ap (λ ys. x ∷ ys) (take-drop n xs)

length-take_some : (n : ℕ) (xs : Bytes) → 1 ≤ n → xs ≢ [] → 1 ≤ length (take n xs)
length-take_some n [] h ne = absurd (ne refl)
length-take_some zero (x ∷ xs) h ne = absurd (omega (arith, h))
length-take_some (suc n) (x ∷ xs) h ne = omega arith

get_lem :
    (first second written : Bytes) (size : ℕ)
    → let s = wrapped (record { first = first; second = second; written = written }) in
      (s.written ≡ written)
      × (first ++ second
          ≡ take size s.first ++ (drop (length (take size s.first)) s.first ++ s.second))
get_lem [] second written size =
    (refl, take-drop size second ∙ ap (λ x. take size second ++ x) (sym (append-nil _)))
get_lem (x ∷ xs) second written size =
    let whole = x ∷ xs in
    (
      refl,
      ap (λ y. y ++ second) (take-drop size whole)
          ∙ append_assoc (take size whole) (drop (length (take size whole)) whole) second,
    )

get_some_lem :
    (first second written : Bytes) (size : ℕ)
    → 1 ≤ size
    → first ++ second ≢ []
    → 1
      ≤ length
          (take size (wrapped (record { first = first; second = second; written = written })).first)
get_some_lem [] second written size h ne = length-take_some size second h ne
get_some_lem (x ∷ xs) second written size h ne = length-take_some size (x ∷ xs) h (λ e. cc)

abbrev two_segments-IsQueue : IsQueue two_segments
two_segments-IsQueue = record {
  contents = λ s. s.first ++ s.second;
  IsFree = λ s. s.written ≡ [];
  put_none = λ s size f e. (f, refl);
  put = λ s size bytes f fits. (
    refl,
    ap (λ x. s.first ++ (s.second ++ x)) (take_all bytes (length bytes) refl)
        ∙ sym (append_assoc s.first s.second bytes),
  );
  get = λ s size f. let (w, c) = get_lem s.first s.second s.written size in (w ∙ f, c);
  get_some = λ s size f h some_wait. get_some_lem s.first s.second s.written size h some_wait;
}

-- A FIFO with the bytes 0x7e and 9 in it
abbrev two_bytes : Interrupt
two_bytes = record {
  uart_irq_update = true;
  uart_irq_rx_ready = true;
  uart_fifo_read = λ n. let read = take n (0x7e ∷ 9 ∷ []) in (pos (length read), read);
}

two_bytes-IsSound : IsSound two_bytes
two_bytes-IsSound = record {
  count = λ n. refl;
  fits = λ n. omega (arith, length-take {A = ℕ} n (0x7e ∷ 9 ∷ []));
}

-- five bytes wait, on both sides of the end of the buffer
abbrev waiting : Line toy two_segments
waiting = record {
  state = done tt connected;
  ring = record { first = 0x7e ∷ 1 ∷ 3 ∷ []; second = 4 ∷ 5 ∷ []; written = [] };
  queued = true;
}

-- an interrupt, the work item, and one more interrupt
abbrev busy : Line toy two_segments
busy = serial_callback two_bytes (hdlc_rx_handler 9 (serial_callback two_bytes waiting))

busy-Run : Run 9 waiting (0x7e ∷ 9 ∷ 0x7e ∷ 9 ∷ []) busy
unfolding serial_callback hdlc_rx_handler taken
busy-Run =
    Run.interrupt two_bytes two_bytes-IsSound
      (Run.work refl (Run.interrupt two_bytes two_bytes-IsSound Run.begin))

Run-in_order_example :
    (processed : Bytes) × (0x7e ∷ 1 ∷ 3 ∷ 4 ∷ 5 ∷ 0x7e ∷ 9 ∷ 0x7e ∷ 9 ∷ []
      ≡ processed ++ two_segments-IsQueue.contents busy.ring)
    × (busy.state ≡ after 9 processed (done tt connected))
Run-in_order_example =
    Run-in_order two_segments-IsQueue 9 waiting (0x7e ∷ 9 ∷ 0x7e ∷ 9 ∷ []) busy refl busy-Run

hdlc_rx_handler_drains_example :
    (two_segments-IsQueue.contents (runs two_segments-IsQueue 9 5 waiting).ring ≡ [])
    × ((runs two_segments-IsQueue 9 5 waiting).state
        ≡ after 9 (0x7e ∷ 1 ∷ 3 ∷ 4 ∷ 5 ∷ []) (done tt connected))
hdlc_rx_handler_drains_example =
    hdlc_rx_handler_drains two_segments-IsQueue 9 5 waiting refl (omega arith)

hdlc_rx_handler_rest_example :
    (two_segments-IsQueue.contents (hdlc_rx_handler 9 waiting).ring ≡ 4 ∷ 5 ∷ [])
    × ((hdlc_rx_handler 9 waiting).queued ≡ false)
hdlc_rx_handler_rest_example =
    hdlc_rx_handler_rest two_segments-IsQueue 9 waiting (0x7e ∷ 1 ∷ 3 ∷ []) (4 ∷ 5 ∷ []) refl refl
      refl

ping-IsMessage : IsMessage 0 ping_hdr []
ping-IsMessage = record {
  cport_lt = omega arith;
  size_eq = refl;
  fits = omega arith;
  id_lt = omega arith;
  type_lt = omega arith;
  result_lt = omega arith;
  pad_lt = (omega arith, omega arith);
  bytes = tt;
}

connected-IsServed : IsServed connected 0 0
connected-IsServed = record {
  item = item_of 0 0 svc_intf;
  is_at = refl;
  is_svc = refl;
  first_cport = refl;
  back_is = to_cport_0;
  back_lt = omega arith;
}

connected-IsIdle : IsIdle connected.hdlc_driver
connected-IsIdle = record { size = refl; empty = refl; fresh_crc = refl; not_escaped = refl }

receive-Answer_example :
    (d : HdlcDriver) × IsIdle d
    × (receive 9
          (hdlc_block_send_sync toy.crc16_ccitt connected.hdlc_driver (wire 0 ping_hdr []) 1 3)
          connected
        ≡ done tt (record connected {
          hdlc_driver = d;
          uart = answered connected 0 ping_hdr (0xa5, 0xa5) [];
          heap = 2;
        }))
receive-Answer_example =
    receive-Answer 9 0 0 0 1 ping_hdr [] [] 1 2 connected connected.hdlc_driver crc16-laws
      connected-IsIdle ping-IsMessage connected-IsServed (Answer.ping refl refl) refl refl
