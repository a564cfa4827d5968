-- ===== src/Tasks.antt =====
-- src/main.c, src/node.c, src/tcp_discovery.c, src/hdlc_log_backend.c: what the work queue and the
-- threads of the firmware do, one step after the other. A step is a run of the work item, a round of
-- a thread, or a piece of log; the kernel's choice of the next one is the list of the steps.
use cc1352_firmware.Prelude.{ℕ, List, [], ◌∷◌, Bytes}
use cc1352_firmware.System.Kernel.{Kernel}
use cc1352_firmware.System.World.{M, ◌>>=◌, ◌>>◌, return}
use cc1352_firmware.Node.Thread.{Wakeup, RxThread, node_rx_thread_entry}
use cc1352_firmware.Node.Filter.{node_filter}
use cc1352_firmware.LogBackend.{hdlc_uart_out}
use cc1352_firmware.Serial.{receive}

pub data Task : Type 0 where
  -- the bytes that the work item takes out of the ring buffer
  received : Bytes → Task
  -- the addresses that a round of discovery has found
  discovered : List Bytes → Task
  -- what wakes the receiving thread
  woken : Wakeup → Task
  logged : Bytes → Task

module _ {k : Kernel} where
  -- The fuel is for the loops that write to a socket and read from it. The state of the receiving
  -- thread goes along.
  unfoldable pub step : ℕ → Task → RxThread → M k RxThread
  step fuel (Task.received bytes) thread = do receive fuel bytes; return thread
  step fuel (Task.discovered addrs) thread = do node_filter addrs; return thread
  step fuel (Task.woken wakeup) thread = node_rx_thread_entry fuel wakeup thread
  step fuel (Task.logged bytes) thread = do hdlc_uart_out bytes; return thread

  unfoldable pub steps : ℕ → List Task → RxThread → M k RxThread
  steps fuel [] thread = return thread
  steps fuel (task ∷ tasks) thread = do thread' ← step fuel task thread; steps fuel tasks thread'
