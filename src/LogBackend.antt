-- ===== src/LogBackend.antt =====
-- src/hdlc_log_backend.c: log output as debug frames on the serial line.
use cc1352_firmware.Prelude.{ℕ, Bool, List, [], ◌∷◌, length, Bytes, if◌then◌else◌}
use cc1352_firmware.Prelude.Int.{ℤ, pos, minus_ebusy}
use cc1352_firmware.System.Kernel.{Kernel}
use cc1352_firmware.System.World.{M, ◌>>◌, return}
use cc1352_firmware.Bridge.Send.{send_block}
use cc1352_firmware.Firmware.{address_dbg}
pub mod Received

abbrev pub buffer_len : ℕ
buffer_len = 200

-- The kernel's formatting of log messages, with the control block and the buffer of
-- `LOG_OUTPUT_DEFINE` as its state. It calls the output function with one piece after the other; a
-- piece is not handed over again, since the output function returns its length.
pub record LogOutput : Type 1 where
  pub State : Type 0
  pub LogMsg : Type 0
  pub log_backend_std_get_flags : ℕ
  pub log_output_msg_process : State → LogMsg → ℕ → List Bytes × State
  pub log_backend_std_dropped : State → ℕ → List Bytes × State
  pub log_backend_std_panic : State → List Bytes × State

-- a call by way of `hdlc_uart_backend_api`
pub data ApiCall (o : LogOutput) : Type 0 where
  process : o.LogMsg → ApiCall o
  dropped : ℕ → ApiCall o
  panic init : ApiCall o
  notify : ℕ → ApiCall o

module _ {k : Kernel} where
  unfoldable pub hdlc_uart_out : Bytes → M k ℤ
  hdlc_uart_out bytes = do send_block bytes address_dbg 0x03; return (pos (length bytes))

  unfoldable pub output : List Bytes → M k (Unit {0})
  output [] = return tt
  output (piece ∷ pieces) = do hdlc_uart_out piece; output pieces

  module _ (o : LogOutput) where
    unfoldable pub hdlc_uart_backend_process : o.LogMsg → o.State → M k o.State
    hdlc_uart_backend_process msg s =
        let flags = o.log_backend_std_get_flags in
        let (pieces, s') = o.log_output_msg_process s msg flags in do output pieces; return s'

    unfoldable pub hdlc_uart_backend_dropped : ℕ → o.State → M k o.State
    hdlc_uart_backend_dropped cnt s =
        let (pieces, s') = o.log_backend_std_dropped s cnt in do output pieces; return s'

    unfoldable pub hdlc_uart_backend_panic : o.State → M k o.State
    hdlc_uart_backend_panic s =
        let (pieces, s') = o.log_backend_std_panic s in do output pieces; return s'

    unfoldable pub hdlc_uart_backend_init : o.State → M k o.State
    hdlc_uart_backend_init s = return s

    unfoldable pub hdlc_uart_backend_notify : ℕ → o.State → M k o.State
    hdlc_uart_backend_notify event s = return s

    -- The calls that report an outcome, `is_ready` and `format_set`, are functions of their own.
    unfoldable pub hdlc_uart_backend_api : ApiCall o → o.State → M k o.State
    hdlc_uart_backend_api (ApiCall.process msg) s = hdlc_uart_backend_process msg s
    hdlc_uart_backend_api (ApiCall.dropped cnt) s = hdlc_uart_backend_dropped cnt s
    hdlc_uart_backend_api ApiCall.panic s = hdlc_uart_backend_panic s
    hdlc_uart_backend_api ApiCall.init s = hdlc_uart_backend_init s
    hdlc_uart_backend_api (ApiCall.notify event) s = hdlc_uart_backend_notify event s

  -- The answer of `device_is_ready` is given.
  unfoldable pub hdlc_uart_backend_is_ready : Bool → M k ℤ
  hdlc_uart_backend_is_ready device_is_ready =
      if device_is_ready then return (pos 0) else return minus_ebusy

  unfoldable pub hdlc_uart_backend_format_set : ℕ → M k ℤ
  hdlc_uart_backend_format_set log_type = return (pos 0)
