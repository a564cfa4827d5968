-- ===== src/Svc/Requests.antt =====
-- src/svc.c: the requests that the SVC sends to the AP, and its responses.
use cc1352_firmware.Prelude.{ℕ, false, [], ◌∷◌, none, some, if◌then◌else◌, length, Bytes, ◌+◌, ◌*◌}
use cc1352_firmware.Prelude.Int.{ℤ, pos, is_negative, minus_enomem}
use cc1352_firmware.Prelude.Assoc.{lookup}
use cc1352_firmware.System.Kernel.{Kernel}
use cc1352_firmware.System.World.{IntfPtr, NodeInterface, M, ◌>>=◌, ◌>>◌, return, gets, live}
use cc1352_firmware.Greybus.Message.{
  Message, gb_message_request_alloc, gb_message_response_alloc, gb_message_type,
}
use cc1352_firmware.Greybus.Interface.{svc_inf_id, ap_inf_id, local_node_id}
use cc1352_firmware.Bridge.Send.{send_to_ap}
use cc1352_firmware.Node.Destroy.{node_destroy_interface}

-- The id of a request that is read from the message after it was sent: its block was given back to
-- the heap by then, and holds anything.
abbrev pub stale_id_at : (k : Kernel) → k.Heap → ℕ → ℕ
stale_id_at k h p = k.memory h (p + 2) + 256 * k.memory h (p + 3)

abbrev stale_id : (k : Kernel) → k.Heap → Message → ℕ
stale_id k h msg = stale_id_at k h msg.ptr

module _ {k : Kernel} where
  -- The id is read from the message after it was sent, and so freed.
  unfoldable pub control_send_request : Bytes → ℕ → M k ℤ
  control_send_request payload request_type = do
    msg ← gb_message_request_alloc payload (length payload) request_type false
    elim msg [
      | none ↦ return minus_enomem
      | some m ↦ (do
        ret ← send_to_ap svc_inf_id 0 m
        after ← gets (λ w. w.heap)
        return (if is_negative ret then ret else pos (stale_id k after m)))
    ]

  unfoldable pub svc_send_hello : M k ℤ
  svc_send_hello = control_send_request (0x55 ∷ 0x47 ∷ ap_inf_id ∷ []) 0x02

  unfoldable pub svc_send_version : M k ℤ
  svc_send_version = control_send_request (0 ∷ 1 ∷ []) 0x01

  unfoldable pub svc_send_module_inserted : ℕ → M k ℤ
  svc_send_module_inserted primary_intf_id =
      control_send_request (primary_intf_id ∷ 1 ∷ 0 ∷ 0 ∷ []) 0x1f

  -- the `id` field of an interface
  unfoldable pub interface_id : IntfPtr → M k ℕ
  interface_id IntfPtr.svc_intf = return svc_inf_id
  interface_id IntfPtr.local_intf = return local_node_id
  interface_id (IntfPtr.node_intf p) = do
    intfs ← gets (λ w. w.interfaces)
    intf ← live (lookup p intfs)
    return (NodeInterface.id intf)

  -- The node is destroyed only if the request was sent.
  unfoldable pub svc_send_module_removed : IntfPtr → M k ℤ
  svc_send_module_removed intf = do
    id ← interface_id intf
    ret ← control_send_request (id ∷ []) 0x20
    (if is_negative ret then return ret else (do node_destroy_interface intf; return ret))

  -- `svc_response_helper`
  unfoldable pub svc_response_helper : Message → Bytes → ℕ → M k (Unit {0})
  svc_response_helper msg payload status = do
    resp ←
        gb_message_response_alloc payload (length payload) (gb_message_type msg)
          msg.header.operation_id status
    elim resp [ none ↦ return tt | some r ↦ (do send_to_ap svc_inf_id 0 r; return tt) ]
