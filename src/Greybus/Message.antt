-- ===== src/Greybus/Message.antt =====
-- src/greybus_messages.c, include/greybus_messages.h and the header of
-- include/greybus_protocols.h. The target is little-endian, so the conversions of byte order are
-- the identity on values.
use cc1352_firmware.Prelude.{
  ℕ, ◌+◌, ◌%◌, Bool, not, [], ◌∷◌, Option, none, some, bit_and, bit_or, ltb, ◌==◌, if◌then◌else◌,
  length, take, Bytes, lo, hi, add_size, sub_size,
}
use cc1352_firmware.System.Kernel.{Kernel}
use cc1352_firmware.System.World.{
  null_pointer, out_of_bounds, done, fault, M, ◌>>=◌, return, fail, modify,
}

-- `struct gb_operation_msg_hdr`
pub record MsgHdr : Type 0 where
  pub size : ℕ
  pub operation_id : ℕ
  pub type : ℕ
  pub result : ℕ
  pub pad : ℕ × ℕ

abbrev pub sizeof_hdr : ℕ
sizeof_hdr = 8

-- `struct gb_message` at the address `ptr`, in a heap block of `block` bytes. The payload is what
-- has been written of it.
pub record Message : Type 0 where
  pub ptr : ℕ
  pub block : ℕ
  pub header : MsgHdr
  pub payload : Bytes

abbrev pub gb_op_response : ℕ
gb_op_response = 0x80

unfoldable pub gb_hdr_payload_len : MsgHdr → ℕ
gb_hdr_payload_len hdr = sub_size hdr.size sizeof_hdr

unfoldable pub gb_message_payload_len : Message → ℕ
unfolding gb_hdr_payload_len
gb_message_payload_len msg = gb_hdr_payload_len msg.header

unfoldable pub gb_hdr_is_response : MsgHdr → Bool
gb_hdr_is_response hdr = not (bit_and hdr.type gb_op_response == 0)

unfoldable pub gb_hdr_is_success : MsgHdr → Bool
gb_hdr_is_success hdr = hdr.result == 0

unfoldable pub gb_message_is_response : Message → Bool
unfolding gb_hdr_is_response
gb_message_is_response msg = gb_hdr_is_response msg.header

unfoldable pub gb_message_is_success : Message → Bool
unfolding gb_hdr_is_success
gb_message_is_success msg = gb_hdr_is_success msg.header

abbrev pub gb_message_type : Message → ℕ
gb_message_type msg = msg.header.type

-- the eight bytes of a header in memory
unfoldable pub hdr_bytes : MsgHdr → Bytes
hdr_bytes h =
    lo h.size
    ∷ hi h.size
    ∷ lo h.operation_id
    ∷ hi h.operation_id
    ∷ h.type
    ∷ h.result
    ∷ h.pad.0
    ∷ h.pad.1
    ∷ []

-- the padding of the header of a new message at `p`: what the memory of the block holds
abbrev pub padding : (k : Kernel) → k.Heap → ℕ → ℕ × ℕ
padding k h p = (k.memory h (p + 6), k.memory h (p + 7))

-- a header as it is in a new message at `p`: `gb_message_alloc` writes all but the padding.
abbrev pub in_block : (k : Kernel) → k.Heap → ℕ → MsgHdr → MsgHdr
in_block k h p hdr = record hdr { pad = padding k h p }

abbrev pub operation_id_start : ℕ
operation_id_start = 1

module _ {k : Kernel} where
  -- `new_operation_id`: `atomic_inc` returns the value before.
  unfoldable pub new_operation_id : M k ℕ
  new_operation_id w =
      let temp = w.operation_id_counter in
      done (temp % 65536)
        (record w { operation_id_counter = if temp == 65535 then operation_id_start else temp + 1 })

  -- The block wraps with `size_t`; a header that does not fit into it is written out of bounds. The
  -- padding of the header is not written.
  unfoldable pub gb_message_alloc : ℕ → ℕ → ℕ → ℕ → M k (Option Message)
  gb_message_alloc payload_len message_type operation_id status w =
      let block = add_size sizeof_hdr payload_len in
      elim (k.k_heap_alloc w.heap block) [
        | none ↦ done none w
        | some (p, h) ↦
            if ltb block sizeof_hdr
            then fault out_of_bounds
            else done
                (some (record {
                  ptr = p;
                  block = block;
                  header = record {
                    size = block % 65536;
                    operation_id = operation_id;
                    type = message_type;
                    result = status;
                    pad = padding k h p;
                  };
                  payload = [];
                }))
                (record w { heap = h })
      ]

  unfoldable pub gb_message_dealloc : Message → M k (Unit {0})
  gb_message_dealloc msg = modify (λ w. record w { heap = k.k_heap_free w.heap msg.ptr })

  -- `memcpy(msg->payload, src, len)`, where `src` is the memory from the source address on. At a
  -- null message it faults unless no byte is copied.
  unfoldable pub memcpy_payload : Option Message → Bytes → ℕ → M k (Option Message)
  memcpy_payload none src len = if len == 0 then return none else fail null_pointer
  memcpy_payload (some msg) src len =
      if ltb msg.block (sizeof_hdr + len)
      then fail out_of_bounds
      else if ltb (length src) len
      then fail out_of_bounds
      else return (some (record msg { payload = take len src }))

  unfoldable pub gb_message_request_alloc : Bytes → ℕ → ℕ → Bool → M k (Option Message)
  gb_message_request_alloc payload payload_len request_type is_oneshot = do
    operation_id ← (if is_oneshot then return 0 else new_operation_id)
    msg ← gb_message_alloc payload_len request_type operation_id 0
    memcpy_payload msg payload payload_len

  unfoldable pub gb_message_response_alloc : Bytes → ℕ → ℕ → ℕ → ℕ → M k (Option Message)
  gb_message_response_alloc payload payload_len request_type operation_id status = do
    msg ← gb_message_alloc payload_len (bit_or gb_op_response request_type) operation_id status
    memcpy_payload msg payload payload_len
