-- ===== src/Node/Receiving.antt =====
-- src/node.c: a message is received as it was sent.
use cc1352_firmware.Prelude.{
  ℕ, zero, suc, ◌+◌, ◌-◌, ◌*◌, ◌≤◌, ◌<◌, ◌%◌, ◌^◌, ◌≡◌, refl, ap, ◌∙◌, Bool, false, [], ◌∷◌, ◌++◌,
  append-nil, append_assoc, some, leb, arith, length, length-drop, take, drop, take-append-drop,
  take-append_le, drop-append_le, Bytes, lo, hi,
}
use cc1352_firmware.Prelude.Int.{ℤ, pos}
use cc1352_firmware.System.Kernel.{Kernel}
use cc1352_firmware.System.World.{World, Outcome, done, ◌>>=◌}
use cc1352_firmware.Greybus.Message.{
  MsgHdr, hdr_bytes, gb_hdr_payload_len, gb_message_payload_len, gb_message_alloc, in_block,
}
use cc1352_firmware.Node.Receive.{
  ReadData, zsock_recv, read_from, read_data, word_at, read_hdr, gb_message_receive,
}
use cc1352_firmware.Bridge.Wire.{wire}

-- What a stream socket promises while bytes wait in the stream: a call hands over at least one of
-- them, the first ones, and as many as it says, which are not more than it was asked for.
pub record Source (k : Kernel) (sock : ℤ) : Type 0 where
  pub stream : k.Net → Bytes
  pub delivers :
      (n : k.Net) (b : ℕ) (bytes : Bytes) (len : ℕ)
      → stream n ≡ b ∷ bytes
      → 1 ≤ len
      → (m : ℕ) × ((k.zsock_recv n sock len).0 ≡ pos (suc m))
        × (suc m ≤ len)
        × (suc m ≤ length (b ∷ bytes))
        × ((k.zsock_recv n sock len).1 ≡ take (suc m) (b ∷ bytes))
        × (stream (k.zsock_recv n sock len).2 ≡ drop (suc m) (b ∷ bytes))

-- The socket holds the message with this cport, header and payload, and then `rest`; its fields are
-- in range, its header gives its size, and the heap has room for it at `p`.
pub record IsWaiting {k : Kernel} {sock : ℤ} (c : Source k sock) (cport p : ℕ) (hdr : MsgHdr)
    (payload rest : Bytes) (h : k.Heap) (w : World k) : Type 0 where
  pub waits : c.stream w.net ≡ wire cport hdr payload ++ rest
  pub cport_lt : cport < 65536
  pub size_eq : hdr.size ≡ 8 + length payload
  pub size_lt : hdr.size < 65536
  pub id_lt : hdr.operation_id < 65536
  pub room : k.k_heap_alloc w.heap hdr.size ≡ some (p, h)

bytes_are :
    {k : Kernel} {o : Outcome k ReadData} {ret : ℤ} {bytes bytes' : Bytes} {w : World k}
    → o ≡ done (record { ret = ret; bytes = bytes }) w
    → bytes ≡ bytes'
    → o ≡ done (record { ret = ret; bytes = bytes' }) w
bytes_are {ret = ret} {w = w} e f = e ∙ ap (λ x. done (record { ret = ret; bytes = x }) w) f

word_of_bytes : (n : ℕ) → n < 65536 → lo n + 256 * hi n ≡ n
word_of_bytes n h = omega arith

-- What the three reads of a message give decides what is received.
gb_message_receive-reads :
    {k : Kernel} (sock : ℤ) (fuel cport p : ℕ) (hdr : MsgHdr) (payload : Bytes) (flag : Bool)
    (h : k.Heap) (w : World k) (n1 n2 n3 : k.Net)
    → cport < 65536
    → hdr.size ≡ 8 + length payload
    → hdr.size < 65536
    → hdr.operation_id < 65536
    → k.k_heap_alloc w.heap hdr.size ≡ some (p, h)
    → read_data fuel sock 2 w
      ≡ done (record { ret = pos 2; bytes = lo cport ∷ hi cport ∷ [] }) (record w { net = n1 })
    → read_data fuel sock 8 (record w { net = n1 })
      ≡ done (record { ret = pos 8; bytes = hdr_bytes hdr }) (record w { net = n2 })
    → read_data fuel sock (length payload) (record w { net = n2; heap = h })
      ≡ done
          (record { ret = pos (length payload); bytes = payload })
          (record w { net = n3; heap = h })
    → gb_message_receive fuel sock flag w
      ≡ done
          (record {
            cport_id = cport;
            msg = some (record {
              ptr = p;
              block = hdr.size;
              header = in_block k h p hdr;
              payload = payload;
            });
            closed = flag;
          })
          (record w { net = n3; heap = h })
unfolding gb_message_receive word_at read_hdr hdr_bytes gb_message_alloc gb_hdr_payload_len
    gb_message_payload_len
gb_message_receive-reads sock fuel cport p hdr payload flag h w n1 n2 n3 cp sz l o a e1 e2 e3 =
    let len : (hdr.size + 2 ^ 32 - 8) % 2 ^ 32 ≡ length payload = omega (arith, sz, l) in
    let block : (8 + length payload) % 2 ^ 32 ≡ hdr.size = omega (arith, sz, l) in
    let size : hdr.size % 65536 ≡ hdr.size = omega (arith, l) in
    ground (
      arith,
      word_of_bytes cport cp,
      word_of_bytes hdr.size l,
      word_of_bytes hdr.operation_id o,
      len,
      block,
      size,
      a,
      e1,
      e2,
      e3,
    )

module _ {k : Kernel} {sock : ℤ} (c : Source k sock) where
  read_from-stream :
      (fuel len received : ℕ) (got bytes rest : Bytes) (w : World k)
      → c.stream w.net ≡ bytes ++ rest
      → length bytes ≤ fuel
      → received + length bytes ≡ len
      → (n : k.Net) × (read_from fuel sock len received got w
          ≡ done (record { ret = pos len; bytes = got ++ bytes }) (record w { net = n }))
        × (c.stream n ≡ rest)
  unfolding read_from zsock_recv
  read_from-stream zero len received got [] rest w s f l =
      let e : received ≡ len = omega arith in (w.net, ground (arith, append-nil got), s)
  read_from-stream zero len received got (b ∷ bytes) rest w s f l = absurd (omega arith)
  read_from-stream (suc fuel) len received got [] rest w s f l =
      (w.net, ground (arith, append-nil got), s)
  read_from-stream (suc fuel) len received got (b ∷ bytes) rest w s f l =
      let (m, ok, le, _, given, left) =
        c.delivers w.net b (bytes ++ rest) (len - received) s (omega arith) in
      let fits : suc m ≤ length (b ∷ bytes) = omega (arith, le) in
      let w' : World k = record w { net = (k.zsock_recv w.net sock (len - received)).2 } in
      let new = take (suc m) (b ∷ bytes) in
      let more : leb len received ≡ false = ground arith in
      let (n, e, r) =
        read_from-stream fuel len (received + suc m) (got ++ new) (drop (suc m) (b ∷ bytes)) rest w'
          (left ∙ drop-append_le (suc m) (b ∷ bytes) rest fits)
          (omega (arith, length-drop (suc m) (b ∷ bytes), fits))
          (omega (arith, length-drop (suc m) (b ∷ bytes), fits)) in
      let whole : got ++ new ++ drop (suc m) (b ∷ bytes) ≡ got ++ b ∷ bytes =
        append_assoc got new (drop (suc m) (b ∷ bytes))
        ∙ ap (λ x. got ++ x) (take-append-drop (suc m) (b ∷ bytes)) in
      (
        n,
        rw (more, ok, ◌>>=◌, given, take-append_le (suc m) (b ∷ bytes) rest fits)
            (bytes_are e whole),
        r,
      )

  -- Over a stream socket that hands over at least one byte a call while bytes wait, a waiting
  -- message, whose fields are in range, whose header gives its size, and for which the heap has
  -- room, is received as it was written to the stream, with fuel for its bytes: its cport, the
  -- fields of its header and its payload. The padding of the header is not kept, but is what the
  -- block of memory held. What follows the message stays in the stream, and the flag keeps its
  -- value.
  pub gb_message_receive-wire :
      (fuel cport p : ℕ) (hdr : MsgHdr) (payload rest : Bytes) (flag : Bool) (h : k.Heap)
      (w : World k)
      → IsWaiting c cport p hdr payload rest h w
      → 8 + length payload ≤ fuel
      → (n : k.Net) × (gb_message_receive fuel sock flag w
          ≡ done
              (record {
                cport_id = cport;
                msg = some (record {
                  ptr = p;
                  block = hdr.size;
                  header = in_block k h p hdr;
                  payload = payload;
                });
                closed = flag;
              })
              (record w { net = n; heap = h }))
        × (c.stream n ≡ rest)
  unfolding read_data hdr_bytes
  gb_message_receive-wire fuel cport p hdr payload rest flag h w i f =
      let split =
        i.waits ∙ ap (λ x. lo cport ∷ hi cport ∷ x) (append_assoc (hdr_bytes hdr) payload rest) in
      let (n1, e1, s1) =
        read_from-stream fuel 2 0 [] (lo cport ∷ hi cport ∷ []) (hdr_bytes hdr ++ (payload ++ rest))
          w split (omega arith) refl in
      let w1 : World k = record w { net = n1 } in
      let (n2, e2, s2) =
        read_from-stream fuel 8 0 [] (hdr_bytes hdr) (payload ++ rest) w1 s1 (omega arith) refl in
      let w2 : World k = record w { net = n2; heap = h } in
      let (n3, e3, s3) =
        read_from-stream fuel (length payload) 0 [] payload rest w2 s2 (omega arith)
          (omega arith) in
      let received =
        gb_message_receive-reads sock fuel cport p hdr payload flag h w n1 n2 n3 i.cport_lt
          i.size_eq i.size_lt i.id_lt i.room e1 e2 e3 in
      (n3, received, s3)
