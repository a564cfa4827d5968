-- ===== src/Svc/State.antt =====
-- src/svc.c: whether the SVC is ready, and the connections to it.
use cc1352_firmware.Prelude.{
  ℕ, Bool, true, false, not, ◌&&◌, Option, none, some, ◌==◌, if◌then◌else◌,
}
use cc1352_firmware.Prelude.Int.{ℤ, pos}
use cc1352_firmware.System.Kernel.{Kernel}
use cc1352_firmware.System.World.{IntfPtr, svc_intf, M, ◌>>=◌, return, gets, modify}

module _ {k : Kernel} where
  unfoldable pub svc_is_ready : M k Bool
  svc_is_ready = gets (λ w. w.svc_is_read_flag)

  unfoldable pub svc_init : M k (Unit {0})
  svc_init = modify (λ w. record w { svc_is_read_flag = true })

  unfoldable pub svc_deinit : M k (Unit {0})
  svc_deinit = modify (λ w. record w { svc_is_read_flag = false })

  unfoldable pub svc_interface : M k (Option IntfPtr)
  svc_interface = do ready ← svc_is_ready; return (if ready then some svc_intf else none)

  -- The value of the condition as an `int`, which is never negative.
  unfoldable pub svc_inf_create_connection : ℕ → M k ℤ
  svc_inf_create_connection cport_id = do
    ready ← svc_is_ready
    return (if cport_id == 0 && not ready then pos 1 else pos 0)

  unfoldable pub svc_inf_destroy_connection : ℕ → M k (Unit {0})
  svc_inf_destroy_connection cport_id = if cport_id == 0 then svc_deinit else return tt
