-- ===== src/Node/Thread.antt =====
-- src/node.c: the receiving thread from its start on. What wakes it, and what the calls that it
-- sleeps in report, is given.
use cc1352_firmware.Prelude.{ℕ, Bool, false, List, Option, none, some, if◌then◌else◌}
use cc1352_firmware.Prelude.Int.{ℤ}
use cc1352_firmware.System.Kernel.{Kernel}
use cc1352_firmware.System.World.{M, ◌>>=◌, ◌>>◌, return, gets, modify}
use cc1352_firmware.Svc.State.{svc_is_ready}
use cc1352_firmware.Node.Receive.{Events, pollfds, node_rx_round}

-- where the thread is: in the wait for the SVC, behind its end, or in the poll of its loop, with the
-- reading end of the pipe, the variable `flag`, and the sockets that the poll looks at
pub data RxThread : Type 0 where
  waiting ended : RxThread
  polling : ℤ → Bool → List ℤ → RxThread

pub data Wakeup : Type 0 where
  -- the sleep is over; the ends of the pair of sockets, where `zsock_socketpair` does not fail
  slept : Option (ℤ × ℤ) → Wakeup
  poll_failed : Wakeup
  -- whether the pipe has a byte, and the events of the sockets
  polled : Bool → List Events → Wakeup

module _ {k : Kernel} where
  -- the start of a round of the loop, up to the poll
  unfoldable pub poll_sockets : ℤ → Bool → M k RxThread
  poll_sockets pipe flag = do
    cache ← gets (λ w. w.node_cache)
    return (RxThread.polling pipe flag (pollfds cache))

  -- the part of `node_rx_thread_entry` between the wait and the loop
  unfoldable pub open_pipe : Option (ℤ × ℤ) → M k RxThread
  open_pipe none = return RxThread.ended
  open_pipe (some (reader, writer)) = do
    modify (λ w. record w { local_pipe_writer = writer })
    poll_sockets reader false

  -- `node_rx_thread_entry` from one place where it waits to the next; a wakeup of another place
  -- than the one where the thread waits is none.
  unfoldable pub node_rx_thread_entry : ℕ → Wakeup → RxThread → M k RxThread
  unfolding open_pipe
  node_rx_thread_entry fuel (Wakeup.slept pair) RxThread.waiting = do
    ready ← svc_is_ready
    if ready then open_pipe pair else return RxThread.waiting
  node_rx_thread_entry fuel Wakeup.poll_failed (RxThread.polling pipe flag socks) =
      poll_sockets pipe flag
  node_rx_thread_entry fuel (Wakeup.polled woken events) (RxThread.polling pipe flag socks) = do
    flag' ← node_rx_round fuel pipe woken socks events flag
    poll_sockets pipe flag'
  node_rx_thread_entry fuel wakeup thread = return thread
