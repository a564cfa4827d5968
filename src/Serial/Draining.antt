-- ===== src/Serial/Draining.antt =====
-- src/hdlc.c: how the work item empties the ring buffer.
use cc1352_firmware.Prelude.{
  ℕ, zero, suc, ◌≤◌, ◌≡◌, ◌≢◌, ◌⊎◌, inl, inr, refl, sym, ap, ◌∙◌, false, [], ◌∷◌, ◌++◌, arith,
  length, length-append, Bytes,
}
use cc1352_firmware.System.Kernel.{Kernel}
use cc1352_firmware.Serial.Ring.{RingBuf, IsQueue}
use cc1352_firmware.Serial.{Line, hdlc_rx_buf_size, hdlc_rx_handler}
use cc1352_firmware.Serial.Ordering.{after, after_nothing, after-append, hdlc_rx_handler_lem}

cancel : (xs : Bytes) {ys zs : Bytes} → xs ++ ys ≡ xs ++ zs → ys ≡ zs
cancel [] e = e
cancel (x ∷ xs) e = cancel xs (cc)

Bytes-cases : (xs : Bytes) → (xs ≡ []) ⊎ (xs ≢ [])
Bytes-cases [] = inl refl
Bytes-cases (x ∷ xs) = inr (λ e. cc)

no_bytes : (xs : Bytes) → length xs ≤ 0 → xs ≡ []
no_bytes [] h = refl
no_bytes (x ∷ xs) h = absurd (omega arith)

module _ {k : Kernel} {r : RingBuf} (q : IsQueue r) (fuel : ℕ) where
  -- `n` runs of the work item
  abbrev pub runs : ℕ → Line k r → Line k r
  runs zero l = l
  runs (suc n) l = runs n (hdlc_rx_handler fuel l)

  hdlc_rx_handler-shorter :
      (n : ℕ) (l : Line k r)
      → q.IsFree l.ring
      → length (q.contents l.ring) ≤ suc n
      → length (q.contents (hdlc_rx_handler fuel l).ring) ≤ n
  unfolding hdlc_rx_handler
  hdlc_rx_handler-shorter n l free h =
      let claim = r.ring_buf_get_claim l.ring hdlc_rx_buf_size in
      let left = q.contents (r.ring_buf_get_finish claim.1 (length claim.0)).1 in
      let split = ap length (q.get l.ring hdlc_rx_buf_size free).1 ∙ length-append claim.0 left in
      elim (Bytes-cases (q.contents l.ring)) [
        | inl none_wait ↦ omega (arith, split, ap length none_wait)
        | inr some_wait ↦
            omega (arith, split, q.get_some l.ring hdlc_rx_buf_size free (omega arith) some_wait)
      ]

  -- Over a ring buffer that is a queue with no open claim: as many runs of the work item as bytes
  -- wait in the buffer, or more, leave it empty, with all of them processed in order.
  pub hdlc_rx_handler_drains :
      (n : ℕ) (l : Line k r)
      → q.IsFree l.ring
      → length (q.contents l.ring) ≤ n
      → (q.contents (runs n l).ring ≡ [])
        × ((runs n l).state ≡ after fuel (q.contents l.ring) l.state)
  hdlc_rx_handler_drains zero l free h =
      let e = no_bytes (q.contents l.ring) h in
      (e, sym (after_nothing fuel l.state) ∙ ap (λ x. after fuel x l.state) (sym e))
  hdlc_rx_handler_drains (suc n) l free h =
      let (f, (bytes, c, s)) = hdlc_rx_handler_lem q fuel l free in
      let (empty, t) =
        hdlc_rx_handler_drains n (hdlc_rx_handler fuel l) f (hdlc_rx_handler-shorter n l free h) in
      (
        empty,
        t
            ∙ ap (after fuel (q.contents (hdlc_rx_handler fuel l).ring)) s
            ∙ sym (after-append fuel bytes (q.contents (hdlc_rx_handler fuel l).ring) l.state)
            ∙ ap (λ x. after fuel x l.state) (sym c),
      )

  -- Where the bytes that wait do not lie at one place, so that the claim hands over the first of
  -- them and others are left, one run of the work item leaves those in the buffer and no work item
  -- in the queue: they stay until the next interrupt.
  pub hdlc_rx_handler_rest :
      (l : Line k r) (first rest : Bytes)
      → q.IsFree l.ring
      → q.contents l.ring ≡ first ++ rest
      → (r.ring_buf_get_claim l.ring hdlc_rx_buf_size).0 ≡ first
      → (q.contents (hdlc_rx_handler fuel l).ring ≡ rest)
        × ((hdlc_rx_handler fuel l).queued ≡ false)
  unfolding hdlc_rx_handler
  hdlc_rx_handler_rest l first rest free c e =
      let (f, d) = q.get l.ring hdlc_rx_buf_size free in
      let left =
        q.contents
          (r.ring_buf_get_finish (r.ring_buf_get_claim l.ring hdlc_rx_buf_size).1
            (length (r.ring_buf_get_claim l.ring hdlc_rx_buf_size).0)).1 in
      (cancel first (sym (ap (λ x. x ++ left) e) ∙ sym d ∙ c), refl)
