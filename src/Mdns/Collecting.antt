-- ===== src/Mdns/Collecting.antt =====
-- src/mdns.c: the answers that are collected are those of the nodes, in order.
use cc1352_firmware.Prelude.{
  ℕ, zero, suc, ◌+◌, ◌-◌, ◌<◌, ◌≡◌, inl, inr, refl, ap, ◌∙◌, Bool, Bool-cases, [], ◌∷◌, ◌++◌,
  append-nil, append_assoc, List, none, some, min, arith, ltb, if◌then◌else◌, length, length-append,
  take, drop, All, Bytes,
}
use cc1352_firmware.Prelude.Int.{ℤ, pos}
use cc1352_firmware.Mdns.Answer.{mdns_query_recv_internal}
use cc1352_firmware.Mdns.Receive.{
  DatagramSocket, Stack, mdns_response_buffer_size, with_found, receive_one, receive_from,
  mdns_query_recv,
}

pub record Datagram : Type 0 where
  pub sender : Bytes
  pub payload : Bytes

-- the buffer when the datagram was received into it
abbrev pub received_into : Bytes → Datagram → Bytes
received_into buffer d =
    let n = min mdns_response_buffer_size (length d.payload) in take n d.payload ++ drop n buffer

abbrev pub received_size : Datagram → ℕ
received_size d = min mdns_response_buffer_size (length d.payload)

-- What is documented of the socket, while nothing arrives: a poll says whether a datagram waits,
-- and a read takes the first one, cut to the size of the buffer.
pub record IsMailbox (net : DatagramSocket) : Type 1 where
  pub waiting : net.Sock → List Datagram
  pub poll_nothing :
      (s : net.Sock) (timeout : ℤ) → waiting s ≡ [] → (net.zsock_poll s timeout).0 ≡ pos 0
  pub poll_something :
      (s : net.Sock) (timeout : ℤ) (d : Datagram) (ds : List Datagram)
      → waiting s ≡ d ∷ ds
      → (net.zsock_poll s timeout).0 ≡ pos 1
  pub poll_keeps : (s : net.Sock) (timeout : ℤ) → waiting (net.zsock_poll s timeout).1 ≡ waiting s
  pub recv :
      (s : net.Sock) (buffer : Bytes) (d : Datagram) (ds : List Datagram)
      → waiting s ≡ d ∷ ds
      → (s' : net.Sock) × (net.zsock_recvfrom s buffer
          ≡ (pos (received_size d), received_into buffer d, d.sender, s'))
        × (waiting s' ≡ ds)

-- The check of the datagram ends with this verdict, whatever the stack holds.
abbrev pub IsJudged : Stack → Bytes → (Datagram → Bool) → Datagram → Type 0
IsJudged stack query verdict d =
    (round : ℕ)
    → mdns_query_recv_internal (received_into (stack.buffer round) d) (received_size d) query
        (stack.namebuffer round)
      ≡ some (verdict d)

-- the senders of those that pass the verdict, in order
abbrev pub accepted : (Datagram → Bool) → List Datagram → List Bytes
accepted verdict [] = []
accepted verdict (d ∷ ds) =
    if verdict d then d.sender ∷ accepted verdict ds else accepted verdict ds

module _ {net : DatagramSocket} (mail : IsMailbox net) (stack : Stack) (query : Bytes) where
  receive_one_lem :
      (round : ℕ) (s : net.Sock) (d : Datagram) (ds : List Datagram) (verdict : Datagram → Bool)
      → mail.waiting s ≡ d ∷ ds
      → IsJudged stack query verdict d
      → (s' : net.Sock) × (receive_one net stack query round s
          ≡ some (if verdict d then some d.sender else none, s'))
        × (mail.waiting s' ≡ ds)
  unfolding receive_one
  receive_one_lem round s d ds verdict e judged =
      let (s', f, g) = mail.recv s (stack.buffer round) d ds e in
      (s', ground (arith, f, judged round), g)

  abbrev ready : List Datagram → ℤ
  ready [] = pos 0
  ready (d ∷ ds) = pos 1

  poll-ready :
      (s : net.Sock) (timeout : ℤ) (ds : List Datagram)
      → mail.waiting s ≡ ds
      → (net.zsock_poll s timeout).0 ≡ ready ds
  poll-ready s timeout [] e = mail.poll_nothing s timeout e
  poll-ready s timeout (d ∷ ds) e = mail.poll_something s timeout d ds e

  take_nothing : (n : ℕ) → take {A = Bytes} n [] ≡ []
  take_nothing zero = refl
  take_nothing (suc n) = refl

  -- what one more verdict adds to the list
  with_verdict :
      (list : List Bytes) (len : ℕ) (d : Datagram) (ds : List Datagram) (verdict : Datagram → Bool)
      → length list < len
      → let list' = with_found net stack query (if verdict d then some d.sender else none) list in
        list' ++ take (len - length list') (accepted verdict ds)
        ≡ list ++ take (len - length list) (accepted verdict (d ∷ ds))
  with_verdict list len d ds verdict room = elim (Bool-cases (verdict d)) [
    | inl yes_it ↦
        let longer = length-append list (d.sender ∷ []) in
        let n = len - suc (length list) in
        let more : len - length list ≡ suc n = omega (arith, room) in
        let same : len - length (list ++ d.sender ∷ []) ≡ n = omega (arith, longer) in
        rw (yes_it, more, same) (append_assoc list (d.sender ∷ []) (take n (accepted verdict ds)))
    | inr not_it ↦ rw not_it refl
  ]

  receive_from-accepted :
      (fuel round : ℕ) (s : net.Sock) (len : ℕ) (list : List Bytes) (ds : List Datagram)
      (verdict : Datagram → Bool)
      → mail.waiting s ≡ ds
      → All (IsJudged stack query verdict) ds
      → length ds < fuel
      → (s' : net.Sock) × (receive_from net stack query fuel round (ready ds) s len list
          ≡ some (list ++ take (len - length list) (accepted verdict ds), s'))
  unfolding receive_from
  receive_from-accepted zero round s len list ds verdict e judged enough =
      absurd (omega (arith, enough))
  receive_from-accepted (suc fuel) round s len list [] verdict e judged enough =
      (s, rw (take_nothing (len - length list), append-nil list) refl)
  receive_from-accepted (suc fuel) round s len list (d ∷ ds) verdict e judged enough =
      elim (Bool-cases (ltb (length list) len)) [
        | inr full ↦
            let nothing_left : len - length list ≡ 0 = ground (arith, full) in
            (s, rw (full, nothing_left, append-nil list) refl)
        | inl room ↦
            let (s', one, e') = receive_one_lem round s d ds verdict e judged.0 in
            let polled = net.zsock_poll s' (pos 0) in
            let list' =
              with_found net stack query (if verdict d then some d.sender else none) list in
            let (s'', rest) =
              receive_from-accepted fuel (round + 1) polled.1 len list' ds verdict
                (mail.poll_keeps s' (pos 0) ∙ e') judged.1 (omega (arith, enough)) in
            (
              s'',
              rw (room, one, poll-ready s' (pos 0) ds e')
                  (rest
                    ∙ ap (λ l. some (l, s''))
                        (with_verdict list len d ds verdict (ground (arith, room)))),
            )
      ]

  -- While no more datagrams arrive than those that wait, and where the check of each of them ends
  -- with a verdict, whatever the stack holds: a round for each datagram and one more are enough,
  -- and what is collected is the senders of the datagrams with a good verdict, in their order, the
  -- first of them as far as the list has room.
  pub mdns_query_recv-accepted :
      (fuel : ℕ) (s : net.Sock) (addr_list_len : ℕ) (timeout : ℤ) (verdict : Datagram → Bool)
      → All (IsJudged stack query verdict) (mail.waiting s)
      → length (mail.waiting s) < fuel
      → (s' : net.Sock) × (mdns_query_recv net stack query fuel s addr_list_len timeout
          ≡ some (take addr_list_len (accepted verdict (mail.waiting s)), s'))
  unfolding mdns_query_recv
  mdns_query_recv-accepted fuel s addr_list_len timeout verdict judged enough =
      let polled = net.zsock_poll s timeout in
      let (s', e) =
        receive_from-accepted fuel 0 polled.1 addr_list_len [] (mail.waiting s) verdict
          (mail.poll_keeps s timeout) judged enough in
      let whole : addr_list_len - 0 ≡ addr_list_len = omega arith in
      (
        s',
        rw (poll-ready s timeout (mail.waiting s) refl)
            (e ∙ ap (λ n. some (take n (accepted verdict (mail.waiting s)), s')) whole),
      )
