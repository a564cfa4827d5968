-- ===== src/Node/Sending.antt =====
-- src/node.c: the loop that sends bytes to a node.
use cc1352_firmware.Prelude.{
  ℕ, zero, suc, ◌+◌, ◌≤◌, ◌≡◌, ◌⊎◌, inl, inr, refl, ◌∙◌, ap, [], ◌∷◌, ◌++◌, sym, arith, length,
  take, take-append-drop, append-nil, append_assoc, drop, length-drop, Bytes,
}
use cc1352_firmware.Prelude.Int.{ℤ, pos, negsuc}
use cc1352_firmware.System.Kernel.{Kernel}
use cc1352_firmware.System.World.{World, Outcome, done, fault, ◌>>=◌}
use cc1352_firmware.Node.Transfer.{write_data, write_from, zsock_send}

-- What a stream socket promises: a call that does not fail appends at least one byte of those
-- that it is given to the stream, in order, and says how many.
pub record Channel (k : Kernel) (sock : ℤ) : Type 0 where
  pub stream : k.Net → Bytes
  pub accepts :
      (n : k.Net) (b : ℕ) (bytes : Bytes) (sent : ℕ)
      → (k.zsock_send n sock (b ∷ bytes)).0 ≡ pos sent
      → (1 ≤ sent)
        × (sent ≤ length (b ∷ bytes))
        × (stream (k.zsock_send n sock (b ∷ bytes)).1 ≡ stream n ++ take sent (b ∷ bytes))

pub ℤ-cases : (z : ℤ) → ((e : ℕ) × (z ≡ negsuc e)) ⊎ ((n : ℕ) × (z ≡ pos n))
ℤ-cases (pos n) = inr (n, refl)
ℤ-cases (negsuc e) = inl (e, refl)

-- nothing has changed but the network
abbrev pub OnlyNet : {k : Kernel} → World k → World k → Type 0
OnlyNet w w' = w' ≡ record w { net = w'.net }

pub OnlyNet-trans : {k : Kernel} (a b c : World k) → OnlyNet a b → OnlyNet b c → OnlyNet a c
OnlyNet-trans {k} a b c e f = f ∙ ap (λ (w : World k). record w { net = c.net }) e

-- The run from `start` has ended with a negative result, or with `total` as its result and `bytes`
-- in the stream, and nothing has changed but the network.
abbrev pub Delivered :
    {k : Kernel} {sock : ℤ} → Channel k sock → World k → ℕ → Bytes → Outcome k ℤ → Type 0
Delivered c start total bytes (done (pos n) w) =
    (n ≡ total) × (c.stream w.net ≡ bytes) × OnlyNet start w
Delivered c start total bytes (done (negsuc e) w) = OnlyNet start w
Delivered c start total bytes (fault e) = ⊥

module _ {k : Kernel} {sock : ℤ} (c : Channel k sock) (start : World k) where
  write_from-Delivered :
      (fuel : ℕ) (rest : Bytes) (transmitted : ℕ) (w : World k) (total : ℕ) (bytes : Bytes)
      → OnlyNet start w
      → length rest ≤ fuel
      → transmitted + length rest ≡ total
      → c.stream w.net ++ rest ≡ bytes
      → Delivered c start total bytes (write_from fuel sock rest transmitted w)
  unfolding write_from zsock_send
  write_from-Delivered fuel [] transmitted w total bytes o h e s =
      (omega arith, sym (append-nil (c.stream w.net)) ∙ s, o)
  write_from-Delivered zero (b ∷ rest) transmitted w total bytes o h e s = absurd (omega arith)
  write_from-Delivered (suc fuel) (b ∷ rest) transmitted w total bytes o h e s =
      let next = record w { net = (k.zsock_send w.net sock (b ∷ rest)).1 } in
      let o' : OnlyNet start next = ap (λ (x : World k). record x { net = next.net }) o in
      elim (ℤ-cases (k.zsock_send w.net sock (b ∷ rest)).0) [
        | inl (err, failed) ↦ rw (failed, ◌>>=◌) o'
        | inr (sent, ok) ↦
            let law = c.accepts w.net b rest sent ok in
            let more =
              write_from-Delivered fuel (drop sent (b ∷ rest)) (transmitted + sent) next total bytes
                o' (omega (arith, length-drop sent (b ∷ rest), law))
                (omega (arith, length-drop sent (b ∷ rest), law))
                (rw law.2 (
                  append_assoc (c.stream w.net) (take sent (b ∷ rest)) (drop sent (b ∷ rest))
                  ∙ ap (λ x. c.stream w.net ++ x) (take-append-drop sent (b ∷ rest))
                  ∙ s)) in
            rw (ok, ◌>>=◌) more
      ]

-- Over a stream socket, whose calls fail or append at least one byte, and with fuel for as many
-- calls as there are bytes, `write_data` comes to an end: with a negative result, or with the
-- number of all bytes as its result and exactly these bytes appended to the stream, in order.
-- Nothing else changes.
pub write_data-Delivered :
    {k : Kernel} {sock : ℤ} (c : Channel k sock) (fuel : ℕ) (bytes : Bytes) (w : World k)
    → length bytes ≤ fuel
    → Delivered c w (length bytes) (c.stream w.net ++ bytes) (write_data fuel sock bytes w)
unfolding write_data
write_data-Delivered c fuel bytes w h =
    write_from-Delivered c w fuel bytes 0 w (length bytes) (c.stream w.net ++ bytes) refl h
      (omega arith) refl
