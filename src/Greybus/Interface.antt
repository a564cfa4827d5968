-- ===== src/Greybus/Interface.antt =====
-- src/greybus_interfaces.c: interfaces and their ids.
use cc1352_firmware.Prelude.{ℕ, ◌+◌, ◌%◌, ◌∷◌, Option, none, some, ◌==◌, if◌then◌else◌}
use cc1352_firmware.Prelude.Assoc.{remove}
use cc1352_firmware.System.Kernel.{Kernel}
use cc1352_firmware.System.World.{done, M, ◌>>=◌, ◌>>◌, return, modify}

abbrev pub svc_inf_id : ℕ
svc_inf_id = 0

abbrev pub ap_inf_id : ℕ
ap_inf_id = 1

abbrev pub local_node_id : ℕ
local_node_id = 2

abbrev pub interface_id_start : ℕ
interface_id_start = 3

module _ {k : Kernel} where
  unfoldable pub new_interface_id : M k ℕ
  new_interface_id w =
      let temp = w.interface_id_counter in
      done (temp % 256)
        (record w { interface_id_counter = if temp == 255 then interface_id_start else temp + 1 })

  -- the interface structure at a fresh address of the slab
  init_interface : ℕ → ℕ → M k (Option ℕ)
  init_interface ctrl_data p = do
    id ← new_interface_id
    modify (λ w. record w {
      interfaces = (p, record { id = id; ctrl_data = ctrl_data }) ∷ w.interfaces;
    })
    return (some p)

  -- `gb_interface_alloc` with the callbacks of a node; the result is the address in the slab.
  unfoldable pub gb_interface_alloc : ℕ → M k (Option ℕ)
  unfolding init_interface
  gb_interface_alloc ctrl_data w = elim (k.k_mem_slab_alloc w.gb_interface_slab) [
    | none ↦ done none w
    | some (p, s) ↦ init_interface ctrl_data p (record w { gb_interface_slab = s })
  ]

  unfoldable pub gb_interface_dealloc : ℕ → M k (Unit {0})
  gb_interface_dealloc p w = done tt (record w {
    gb_interface_slab = k.k_mem_slab_free w.gb_interface_slab p;
    interfaces = remove p w.interfaces;
  })
