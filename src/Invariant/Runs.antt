-- ===== src/Invariant/Runs.antt =====
-- src/main.c, src/hdlc.c: the invariant from the start of the firmware on.
use cc1352_firmware.Prelude.{
  ℕ, Option, none, some, ◌≡◌, Bool, true, false, List, [], ◌∷◌, arith, length, length-replicate,
  replicate, Bytes, if◌then◌else◌, get_or, ◌==◌, ◌%◌,
}
use cc1352_firmware.Prelude.Int.{ℤ, pos}
use cc1352_firmware.Hdlc.{
  hdlc_frame, hdlc_esc, HdlcDriver, hdlc_max_block_size, hdlc_process_frame, hdlc_rx_input_byte,
}
use cc1352_firmware.Hdlc.Bounds.{IsValid, hdlc_init-IsValid, hdlc_rx_input_byte-IsValid}
use cc1352_firmware.System.Kernel.{Kernel}
use cc1352_firmware.System.World.{World, Outcome, done, fault, ◌>>◌}
use cc1352_firmware.System.Keeps.{
  keeps_rules, After, After-and_then, Keeps, Keeps-bind, Keeps-gets, Keeps-if, Keeps-modify,
  Keeps-return, Keeps-then,
}
use cc1352_firmware.Greybus.Message.{operation_id_start}
use cc1352_firmware.Greybus.Interface.{interface_id_start}
use cc1352_firmware.Bridge.Table.{ap_max_nodes, empty_item}
use cc1352_firmware.Firmware.{tcp_discovery_stop}
use cc1352_firmware.Serial.{set_driver, frame_callback, receive_byte, receive, main}
use cc1352_firmware.Svc.State.{svc_is_ready}
use cc1352_firmware.Node.Thread.{RxThread, Wakeup, poll_sockets, open_pipe, node_rx_thread_entry}
use cc1352_firmware.Tasks.{Task, step, steps}
use cc1352_firmware.Invariant.{IsSound}
use cc1352_firmware.Invariant.Frames.{
  hdlc_process_complete_frame-Keeps, node_filter-Keeps, hdlc_uart_out-Keeps,
}
use cc1352_firmware.Invariant.Transfers.{node_rx_round-Keeps}

if_both : {A : Type 0} (P : A → Type 0) (b : Bool) (x y : A) → P x → P y → P (if b then x else y)
if_both P true x y h k = h
if_both P false x y h k = k

-- What holds of the state that the frame callback leaves holds of the one that a byte leaves.
module _ {S : Type 0} (process_cb : Bytes → ℕ → S → S) (P : S → Type 0) (s : S) where
  hdlc_process_frame-state :
      (d : HdlcDriver)
      → P s
      → ((payload : Bytes) (address : ℕ) → P (process_cb payload address s))
      → P (hdlc_process_frame process_cb d s).1
  unfolding hdlc_process_frame
  hdlc_process_frame-state d h hc =
      if_both P _ _ s (if_both P (get_or d.rx_buffer 1 0 % 2 == 0) s _ h (hc _ _)) h

  hdlc_rx_input_byte-state :
      (crc16_ccitt : ℕ → Bytes → ℕ) (d : HdlcDriver) (byte : ℕ)
      → P s
      → ((payload : Bytes) (address : ℕ) → P (process_cb payload address s))
      → P (hdlc_rx_input_byte process_cb crc16_ccitt d byte s).1
  unfolding hdlc_rx_input_byte
  hdlc_rx_input_byte-state crc16_ccitt d byte h hc =
      let Q = λ (x : HdlcDriver × S). P x.1 in
      if_both Q (byte == hdlc_frame) _ _
        (if_both Q (d.rx_buffer_len == 0) (d, s) _ h (hdlc_process_frame-state d h hc))
        (if_both Q (byte == hdlc_esc) _ _ h h)

module _ {k : Kernel} where
  set_driver-Sound :
      (d : HdlcDriver) (o : Outcome k (Unit {0}))
      → IsValid d
      → After IsSound o
      → After IsSound (set_driver d o)
  set_driver-Sound d (done u w) v s = record {
    table = s.table;
    operation_ids = s.operation_ids;
    interface_ids = s.interface_ids;
    interfaces = s.interfaces;
    cache = s.cache;
    cached = s.cached;
    driver = v;
    line = s.line;
  }
  set_driver-Sound d (fault e) v s = tt

  receive_byte-Keeps : (fuel b : ℕ) → Keeps (IsSound {k = k}) (receive_byte fuel b)
  unfolding receive_byte frame_callback
  receive_byte-Keeps fuel b = record {
    kept = λ w s.
        set_driver-Sound _ _
          (hdlc_rx_input_byte-IsValid (frame_callback fuel) k.crc16_ccitt w.hdlc_driver b
            (done tt w) s.driver)
          (hdlc_rx_input_byte-state (frame_callback fuel) (After IsSound) (done tt w) k.crc16_ccitt
            w.hdlc_driver b s
            (λ payload address.
              (Keeps-then _ _ (hdlc_process_complete_frame-Keeps fuel payload address)
                  (Keeps-return tt)).kept
                w s));
  }

  receive-Keeps : (fuel : ℕ) (bytes : Bytes) → Keeps (IsSound {k = k}) (receive fuel bytes)
  unfolding receive
  receive-Keeps fuel [] = Keeps-return tt
  receive-Keeps fuel (b ∷ bytes) =
      Keeps-then _ _ (receive_byte-Keeps fuel b) (receive-Keeps fuel bytes)

  poll_sockets-Keeps : (pipe : ℤ) (flag : Bool) → Keeps (IsSound {k = k}) (poll_sockets pipe flag)
  unfolding poll_sockets
  poll_sockets-Keeps pipe flag = search keeps_rules depth 6

  open_pipe-Keeps : (pair : Option (ℤ × ℤ)) → Keeps (IsSound {k = k}) (open_pipe pair)
  unfolding open_pipe
  open_pipe-Keeps none = Keeps-return RxThread.ended
  open_pipe-Keeps (some (reader, writer)) =
      Keeps-then _ _ (Keeps-modify _ (λ w s. s)) (poll_sockets-Keeps reader false)

  node_rx_thread_entry-Keeps :
      (fuel : ℕ) (wakeup : Wakeup) (thread : RxThread)
      → Keeps (IsSound {k = k}) (node_rx_thread_entry fuel wakeup thread)
  unfolding node_rx_thread_entry svc_is_ready
  node_rx_thread_entry-Keeps fuel (Wakeup.slept pair) RxThread.waiting =
      Keeps-bind _ _ (Keeps-gets _)
        λ ready. Keeps-if ready _ _ (open_pipe-Keeps pair) (Keeps-return _)
  node_rx_thread_entry-Keeps fuel Wakeup.poll_failed (RxThread.polling pipe flag socks) =
      poll_sockets-Keeps pipe flag
  node_rx_thread_entry-Keeps fuel (Wakeup.polled woken events) (RxThread.polling pipe flag socks) =
      Keeps-bind _ _ (node_rx_round-Keeps fuel pipe woken socks events flag)
        (poll_sockets-Keeps pipe)
  node_rx_thread_entry-Keeps fuel (Wakeup.slept pair) RxThread.ended = Keeps-return _
  node_rx_thread_entry-Keeps fuel (Wakeup.slept pair) (RxThread.polling pipe flag socks) =
      Keeps-return _
  node_rx_thread_entry-Keeps fuel Wakeup.poll_failed RxThread.waiting = Keeps-return _
  node_rx_thread_entry-Keeps fuel Wakeup.poll_failed RxThread.ended = Keeps-return _
  node_rx_thread_entry-Keeps fuel (Wakeup.polled woken events) RxThread.waiting = Keeps-return _
  node_rx_thread_entry-Keeps fuel (Wakeup.polled woken events) RxThread.ended = Keeps-return _

  step-Keeps :
      (fuel : ℕ) (task : Task) (thread : RxThread) → Keeps (IsSound {k = k}) (step fuel task thread)
  unfolding step
  step-Keeps fuel (Task.received bytes) thread =
      Keeps-then _ _ (receive-Keeps fuel bytes) (Keeps-return thread)
  step-Keeps fuel (Task.discovered addrs) thread =
      Keeps-then _ _ (node_filter-Keeps addrs) (Keeps-return thread)
  step-Keeps fuel (Task.woken wakeup) thread = node_rx_thread_entry-Keeps fuel wakeup thread
  step-Keeps fuel (Task.logged bytes) thread =
      Keeps-then _ _ (hdlc_uart_out-Keeps bytes) (Keeps-return thread)

  steps-Keeps :
      (fuel : ℕ) (tasks : List Task) (thread : RxThread)
      → Keeps (IsSound {k = k}) (steps fuel tasks thread)
  unfolding steps
  steps-Keeps fuel [] thread = Keeps-return thread
  steps-Keeps fuel (task ∷ tasks) thread =
      Keeps-bind _ _ (step-Keeps fuel task thread) (λ thread'. steps-Keeps fuel tasks thread')

-- the static variables as the source initialises them
pub record IsInitial {k : Kernel} (w : World k) : Type 0 where
  pub operation_ids : w.operation_id_counter ≡ operation_id_start
  pub interface_ids : w.interface_id_counter ≡ interface_id_start
  pub interfaces : w.interfaces ≡ []
  pub node_cache : w.node_cache ≡ []
  pub node_ap_map : w.node_ap_map ≡ replicate ap_max_nodes empty_item
  pub rx_buffer : length w.hdlc_driver.rx_buffer ≡ hdlc_max_block_size
  pub uart : w.uart ≡ []

module _ {k : Kernel} where
  main-Sound : (w : World k) (ret : ℕ) → IsInitial w → After IsSound (main true (pos ret) w)
  unfolding main tcp_discovery_stop
  main-Sound w ret i = record {
    table = rw i.node_ap_map (length-replicate ap_max_nodes empty_item);
    operation_ids = omega (arith, i.operation_ids);
    interface_ids = omega (arith, i.interface_ids);
    interfaces = rw i.interfaces tt;
    cache = rw i.node_cache (omega arith);
    cached = rw i.node_cache tt;
    driver = hdlc_init-IsValid w.hdlc_driver i.rx_buffer;
    line = ([], i.uart, tt);
  }

  -- From the state that the source initialises, where the UART is ready: whatever bytes arrive,
  -- whatever addresses discovery finds, whatever wakes the receiving thread and whatever is logged,
  -- in any order, a run of `main` and then of these steps either ends in a fault or leaves the state
  -- sound: the table of connections has its 32 items; the next operation id is in 1 to 65535; the
  -- next interface id and the id of every interface and of every node in the cache are in 3 to 255,
  -- so no node has the id of the SVC, the AP or the board; the cache has at most 32 items; the HDLC
  -- driver is valid; and the serial line carries whole frames, each between two delimiters with no
  -- delimiter inside.
  pub steps-Sound :
      (fuel : ℕ) (tasks : List Task) (ret : ℕ) (w : World k)
      → IsInitial w
      → After IsSound ((do main true (pos ret); steps fuel tasks RxThread.waiting) w)
  steps-Sound fuel tasks ret w i =
      After-and_then (main true (pos ret) w) (λ n. steps fuel tasks RxThread.waiting)
        (main-Sound w ret i) (λ n. steps-Keeps fuel tasks RxThread.waiting)
