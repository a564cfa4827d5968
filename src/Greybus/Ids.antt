-- ===== src/Greybus/Ids.antt =====
-- src/greybus_messages.c and src/greybus_interfaces.c: the ids that the two counters give out.
use cc1352_firmware.Prelude.{ℕ, zero, suc, ◌+◌, ◌-◌, ◌%◌, ◌≤◌, ◌≡◌, arith, ◌==◌, if◌then◌else◌}
use cc1352_firmware.System.Kernel.{Kernel}
use cc1352_firmware.System.World.{World, Outcome, done, fault, M, ◌>>=◌}
use cc1352_firmware.Greybus.Message.{new_operation_id}
use cc1352_firmware.Greybus.Interface.{new_interface_id}

-- the result of the `n`-th of the calls from now on, counted from 0
abbrev pub nth_call : {k : Kernel} {A : Type 0} → ℕ → M k A → M k A
nth_call zero m = m
nth_call (suc n) m = m >>= λ _. nth_call n m

-- the id that a run returned
abbrev pub Returns : {k : Kernel} → Outcome k ℕ → ℕ → Type 0
Returns (done a w) x = a ≡ x
Returns (fault e) x = ⊥

module _ (start size : ℕ) where
  -- the counter after a call: past the last id it starts again
  abbrev next : ℕ → ℕ
  next c = if c == start + size - 1 then start else c + 1

next_operation :
    (c n : ℕ)
    → 1 ≤ c
    → c ≤ 65535
    → 1 + (c - 1 + suc n) % 65535 ≡ 1 + (next 1 65535 c - 1 + n) % 65535
next_operation c n lo hi = ground arith

next_interface :
    (c n : ℕ) → 3 ≤ c → c ≤ 255 → 3 + (c - 3 + suc n) % 253 ≡ 3 + (next 3 253 c - 3 + n) % 253
next_interface c n lo hi = ground arith

module _ {k : Kernel} where
  operation_id_nth :
      (n : ℕ) (w : World k)
      → 1 ≤ w.operation_id_counter
      → w.operation_id_counter ≤ 65535
      → Returns (nth_call n new_operation_id w) (1 + (w.operation_id_counter - 1 + n) % 65535)
  unfolding new_operation_id
  operation_id_nth zero w lo hi = omega arith
  operation_id_nth (suc n) w lo hi = rw (next_operation w.operation_id_counter n lo hi) (
      operation_id_nth n (record w { operation_id_counter = next 1 65535 w.operation_id_counter })
        (ground arith) (ground arith))

  interface_id_nth :
      (n : ℕ) (w : World k)
      → 3 ≤ w.interface_id_counter
      → w.interface_id_counter ≤ 255
      → Returns (nth_call n new_interface_id w) (3 + (w.interface_id_counter - 3 + n) % 253)
  unfolding new_interface_id
  interface_id_nth zero w lo hi = omega arith
  interface_id_nth (suc n) w lo hi = rw (next_interface w.interface_id_counter n lo hi) (
      interface_id_nth n (record w { interface_id_counter = next 3 253 w.interface_id_counter })
        (ground arith) (ground arith))

  -- From a counter between 1 and 65535 the ids of requests run through 1 to 65535 in order and
  -- start again at 1, so none of them is the 0 of a oneshot request; from a counter between 3 and
  -- 255 the ids of interfaces run through 3 to 255 in order and start again at 3, so none of them is
  -- that of the SVC, the AP or the local node.
  pub new_ids_nth :
      (n : ℕ) (w : World k)
      → (1 ≤ w.operation_id_counter) × (w.operation_id_counter ≤ 65535)
      → (3 ≤ w.interface_id_counter) × (w.interface_id_counter ≤ 255)
      → Returns (nth_call n new_operation_id w) (1 + (w.operation_id_counter - 1 + n) % 65535)
        × Returns (nth_call n new_interface_id w) (3 + (w.interface_id_counter - 3 + n) % 253)
  new_ids_nth n w (lo, hi) (lo', hi') = (operation_id_nth n w lo hi, interface_id_nth n w lo' hi')
