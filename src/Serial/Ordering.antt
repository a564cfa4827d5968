-- ===== src/Serial/Ordering.antt =====
-- src/main.c and src/hdlc.c: interrupts and the work queue in any order process the bytes of the
-- serial line one after the other, none twice and none left out.
use cc1352_firmware.Prelude.{
  ℕ, ◌≤◌, ◌≡◌, inl, inr, refl, sym, ap, ◌∙◌, true, Bool-cases, not, ◌&&◌, ◌==◌, [], ◌∷◌, ◌++◌,
  append-nil, append_assoc, arith, length, Bytes, if◌then◌else◌,
}
use cc1352_firmware.Prelude.Int.{pos}
use cc1352_firmware.System.Kernel.{Kernel}
use cc1352_firmware.System.World.{World, Outcome, Outcome-cases, done, fault, ◌>>◌}
use cc1352_firmware.Serial.Ring.{RingBuf, IsQueue}
use cc1352_firmware.Serial.{
  Line, Interrupt, hdlc_rx_buf_size, receive_byte, receive, hdlc_rx_start, hdlc_rx_finish,
  fifo_to_ring, serial_callback, hdlc_rx_handler,
}

-- the state after these bytes, from a state or a fault
abbrev pub after : {k : Kernel} → ℕ → Bytes → Outcome k (Unit {0}) → Outcome k (Unit {0})
after fuel bytes (done u w) = receive fuel bytes w
after fuel bytes (fault e) = fault e

module _ {k : Kernel} (fuel : ℕ) where
  pub receive-append :
      (xs ys : Bytes) (w : World k) → receive fuel (xs ++ ys) w ≡ after fuel ys (receive fuel xs w)
  unfolding receive
  receive-append [] ys w = refl
  receive-append (x ∷ xs) ys w = elim (Outcome-cases (receive_byte fuel x w)) [
    | inl (e, f) ↦ rw (◌>>◌, f) refl
    | inr (u, w', f) ↦ rw (◌>>◌, f) (receive-append xs ys w')
  ]

  pub after-append :
      (xs ys : Bytes) (o : Outcome k (Unit {0}))
      → after fuel (xs ++ ys) o ≡ after fuel ys (after fuel xs o)
  after-append xs ys (done u w) = receive-append xs ys w
  after-append xs ys (fault e) = refl

  pub after_nothing : (o : Outcome k (Unit {0})) → after fuel [] o ≡ o
  unfolding receive
  after_nothing (done u w) = refl
  after_nothing (fault e) = refl

-- `uart_fifo_read` reads no more than it is asked for, says how many bytes it has read, and does
-- not fail.
pub record IsSound (i : Interrupt) : Type 0 where
  pub count : (n : ℕ) → (i.uart_fifo_read n).0 ≡ pos (length (i.uart_fifo_read n).1)
  pub fits : (n : ℕ) → length (i.uart_fifo_read n).1 ≤ n

module _ {k : Kernel} {r : RingBuf} where
  -- the bytes that an interrupt takes from the serial driver
  unfoldable pub taken : Interrupt → Line k r → Bytes
  taken i l =
      let n = (r.ring_buf_put_claim l.ring hdlc_rx_buf_size).0 in
      if not i.uart_irq_update && not i.uart_irq_rx_ready
      then []
      else if n == 0
      then []
      else (i.uart_fifo_read n).1

  -- Runs of the serial line: interrupts at any time, and the work item when it is queued. The
  -- bytes are those that the interrupts have taken.
  pub data Run (fuel : ℕ) (start : Line k r) : Bytes → Line k r → Type 0 where
    begin : Run fuel start [] start
    interrupt :
        {bytes : Bytes} {l : Line k r} (i : Interrupt)
        → IsSound i
        → Run fuel start bytes l
        → Run fuel start (bytes ++ taken i l) (serial_callback i l)
    work :
        {bytes : Bytes} {l : Line k r}
        → l.queued ≡ true
        → Run fuel start bytes l
        → Run fuel start bytes (hdlc_rx_handler fuel l)

  module _ (q : IsQueue r) where
    serial_callback_lem :
        (i : Interrupt) (l : Line k r)
        → IsSound i
        → q.IsFree l.ring
        → q.IsFree (serial_callback i l).ring
          × (q.contents (serial_callback i l).ring ≡ q.contents l.ring ++ taken i l)
          × ((serial_callback i l).state ≡ l.state)
    unfolding serial_callback hdlc_rx_start hdlc_rx_finish fifo_to_ring taken
    serial_callback_lem i l sound free =
        let n = (r.ring_buf_put_claim l.ring hdlc_rx_buf_size).0 in
        elim (Bool-cases (not i.uart_irq_update && not i.uart_irq_rx_ready)) [
          | inl idle ↦ rw idle (free, sym (append-nil _), refl)
          | inr busy ↦ elim (Bool-cases (n == 0)) [
            | inl no_room ↦
                let (f, c) = q.put_none l.ring hdlc_rx_buf_size free (ground (arith, no_room)) in
                rw (busy, no_room) (f, c ∙ sym (append-nil _), refl)
            | inr room ↦
                let (f, c) =
                  q.put l.ring hdlc_rx_buf_size (i.uart_fifo_read n).1 free (sound.fits n) in
                rw (busy, room, sound.count n) (f, c, refl)
          ]
        ]

    pub hdlc_rx_handler_lem :
        (fuel : ℕ) (l : Line k r)
        → q.IsFree l.ring
        → let l' = hdlc_rx_handler fuel l in
          q.IsFree l'.ring
          × ((bytes : Bytes) × (q.contents l.ring ≡ bytes ++ q.contents l'.ring)
              × (l'.state ≡ after fuel bytes l.state))
    unfolding hdlc_rx_handler
    hdlc_rx_handler_lem fuel l free =
        let (f, c) = q.get l.ring hdlc_rx_buf_size free in
        (f, ((r.ring_buf_get_claim l.ring hdlc_rx_buf_size).0, c, refl))

    Run-Ordered :
        {fuel : ℕ} {start : Line k r} {bytes : Bytes} {l : Line k r}
        → q.IsFree start.ring
        → Run fuel start bytes l
        → q.IsFree l.ring
          × ((processed : Bytes) × (q.contents start.ring ++ bytes ≡ processed ++ q.contents l.ring)
              × (l.state ≡ after fuel processed start.state))
    Run-Ordered {fuel} {start} free Run.begin =
        (free, ([], append-nil _, sym (after_nothing fuel _)))
    Run-Ordered {fuel} {start} free (Run.interrupt {bytes} {l} i sound run) =
        let (f, (done', order, s)) = Run-Ordered free run in
        let (f', c, same) = serial_callback_lem i l sound f in
        (
          f',
          (
            done',
            sym (append_assoc (q.contents start.ring) bytes (taken i l))
                ∙ ap (λ x. x ++ taken i l) order
                ∙ append_assoc done' (q.contents l.ring) (taken i l)
                ∙ ap (λ x. done' ++ x) (sym c),
            same ∙ s,
          ),
        )
    Run-Ordered {fuel} {start} free (Run.work {bytes} {l} queued run) =
        let (f, (done', order, s)) = Run-Ordered free run in
        let (f', (new, c, t)) = hdlc_rx_handler_lem fuel l f in
        (
          f',
          (
            done' ++ new,
            order ∙ ap (λ x. done' ++ x) c ∙ sym (append_assoc done' new _),
            t ∙ ap (after fuel new) s ∙ sym (after-append fuel done' new start.state),
          ),
        )

    -- However interrupts and runs of the work item follow each other, over a ring buffer that is a
    -- queue with no open claim at the start, and with reads of the serial driver that do not fail:
    -- the bytes that were in the buffer and those that the interrupts have taken, in their order,
    -- are those that have been processed and those that are in the buffer, and the state is the one
    -- that processing them one after the other gives.
    pub Run-in_order :
        (fuel : ℕ) (start : Line k r) (bytes : Bytes) (l : Line k r)
        → q.IsFree start.ring
        → Run fuel start bytes l
        → (processed : Bytes) × (q.contents start.ring ++ bytes ≡ processed ++ q.contents l.ring)
          × (l.state ≡ after fuel processed start.state)
    Run-in_order fuel start bytes l free run = (Run-Ordered free run).1
