-- ===== src/Serial/Ring.antt =====
-- The kernel's ring buffer (zephyr/sys/ring_buffer.h), which src/hdlc.c uses.
use cc1352_firmware.Prelude.{ℕ, ◌≤◌, ◌≡◌, ◌≢◌, [], ◌++◌, length, Bytes}
use cc1352_firmware.Prelude.Int.{ℤ}

-- A claim to put returns how many bytes may be written at one place, a claim to get the bytes that
-- lie there; the calls that finish a claim say how many of them were used.
pub record RingBuf : Type 1 where
  pub Ring : Type 0
  pub ring_buf_put_claim : Ring → ℕ → ℕ × Ring
  pub claimed_write : Ring → Bytes → Ring
  pub ring_buf_put_finish : Ring → ℕ → ℤ × Ring
  pub ring_buf_get_claim : Ring → ℕ → Bytes × Ring
  pub ring_buf_get_finish : Ring → ℕ → ℤ × Ring

-- What its documentation promises: it is a queue of bytes. The promises hold while no claim is open
-- that was not finished.
pub record IsQueue (r : RingBuf) : Type 1 where
  pub contents : r.Ring → Bytes
  pub IsFree : r.Ring → Type 0
  -- a claim of no room leaves nothing open
  pub put_none :
      (s : r.Ring) (size : ℕ)
      → IsFree s
      → (r.ring_buf_put_claim s size).0 ≡ 0
      → IsFree (r.ring_buf_put_claim s size).1
        × (contents (r.ring_buf_put_claim s size).1 ≡ contents s)
  -- bytes that fit into the claim go to the end of the queue
  pub put :
      (s : r.Ring) (size : ℕ) (bytes : Bytes)
      → IsFree s
      → length bytes ≤ (r.ring_buf_put_claim s size).0
      → let s' =
          (r.ring_buf_put_finish
            (r.claimed_write (r.ring_buf_put_claim s size).1 bytes)
            (length bytes)).1 in
        IsFree s' × (contents s' ≡ contents s ++ bytes)
  -- a claim to get hands over the start of the queue, which is gone when it is finished
  pub get :
      (s : r.Ring) (size : ℕ)
      → IsFree s
      → let (bytes, s') = r.ring_buf_get_claim s size in
        let s'' = (r.ring_buf_get_finish s' (length bytes)).1 in
        IsFree s'' × (contents s ≡ bytes ++ contents s'')
  -- and at least one byte if there is one
  pub get_some :
      (s : r.Ring) (size : ℕ)
      → IsFree s
      → 1 ≤ size
      → contents s ≢ []
      → 1 ≤ length (r.ring_buf_get_claim s size).0
