-- ===== src/Packet/Format.antt =====
-- `Packet::to_bytes` and `Packet::from_bytes` of renet/src/packet.rs.
pub mod Ranges
pub mod RoundTrip
pub mod Bounds
mod Tests
use renet.Base.{
  ℕ, zero, suc, ◌+◌, ◌-◌, ◌%◌, ◌^◌, Bool, true, false, Option, none, some, List, [], ◌∷◌, ◌++◌, ltb,
  leb, ◌==◌, ◌||◌, if◌then◌else◌, length,
}
use renet.Base.Word.{add_u64, sub_u64}
use renet.Base.Outcome.{Outcome, returns, panics, Result, ok, err}
use renet.Error.{
  SerializationError, invalid_num_slices, slice_size_above_limit, empty_slice, invalid_ack_range,
  invalid_packet_type,
}
use renet.Packet.{
  Payload, Range, Slice, Packet, small_reliable, small_unreliable, unreliable_slice, reliable_slice,
  ack, slice_size,
}
use renet.Packet.Wire.{
  Octets, Buffer, Put, put, put_nothing, ◌>>◌, put_varint, Get, give, fail, get, ◌>>=◌,
  get_bytes_with_varint_length,
}

-- `rev` and `reverse`.
abbrev pub rev_onto : {A : Type 0} → List A → List A → List A
rev_onto [] acc = acc
rev_onto (x ∷ xs) acc = rev_onto xs (x ∷ acc)

-- `buffer[..len]`.
abbrev pub written_of :
    Outcome (Result Buffer SerializationError) → Outcome (Result Payload SerializationError)
written_of panics = panics
written_of (returns (err e)) = returns (err e)
written_of (returns (ok b)) = returns (ok b.written)

abbrev pub read_of : Result (Packet × Payload) SerializationError → Result Packet SerializationError
read_of (err e) = err e
read_of (ok (p, rest)) = ok p

module _ (o : Octets) where
  unfoldable pub put_messages : List (ℕ × Payload) → Put
  put_messages [] = put_nothing
  put_messages ((message_id, message) ∷ messages) =
      put_varint o message_id
      >> put_varint o (length message)
      >> put message
      >> put_messages messages

  unfoldable pub put_payloads : List Payload → Put
  put_payloads [] = put_nothing
  put_payloads (message ∷ messages) =
      put_varint o (length message) >> put message >> put_payloads messages

  unfoldable pub put_slice : Slice → Put
  put_slice slice =
      put_varint o slice.message_id
      >> put_varint o slice.slice_index
      >> put_varint o slice.num_slices
      >> put_varint o (length slice.payload)
      >> put slice.payload

  -- The loop over the remaining ranges, the last of them first.
  unfoldable pub put_ranges : ℕ → List Range → Put
  put_ranges previous_range_start [] = put_nothing
  put_ranges previous_range_start (range ∷ it) =
      put_varint o (sub_u64 (sub_u64 previous_range_start range.end) 1)
      >> put_varint o (sub_u64 (sub_u64 range.end 1) range.start)
      >> put_ranges range.start it

  unfoldable pub put_acks : List Range → Put
  put_acks [] b = panics
  put_acks (last ∷ it) b =
      (put_varint o (sub_u64 last.end 1)
          >> put_varint o (sub_u64 (sub_u64 last.end 1) last.start)
          >> put_varint o (length it)
          >> put_ranges last.start it)
        b

  unfoldable pub put_packet : Packet → Put
  put_packet (small_reliable sequence channel_id messages) =
      put (o.u8 0)
      >> put_varint o sequence
      >> put (o.u8 channel_id)
      >> put (o.u16 (length messages % 2 ^ 16))
      >> put_messages messages
  put_packet (small_unreliable sequence channel_id messages) =
      put (o.u8 1)
      >> put_varint o sequence
      >> put (o.u8 channel_id)
      >> put (o.u16 (length messages % 2 ^ 16))
      >> put_payloads messages
  put_packet (reliable_slice sequence channel_id slice) =
      put (o.u8 2) >> put_varint o sequence >> put (o.u8 channel_id) >> put_slice slice
  put_packet (unreliable_slice sequence channel_id slice) =
      put (o.u8 3) >> put_varint o sequence >> put (o.u8 channel_id) >> put_slice slice
  put_packet (ack sequence ack_ranges) =
      put (o.u8 4) >> put_varint o sequence >> put_acks (rev_onto ack_ranges [])

  -- The bytes that are written into a buffer of the given size.
  unfoldable pub to_bytes : ℕ → Packet → Outcome (Result Payload SerializationError)
  to_bytes cap p = written_of (put_packet p (record { written = []; left = cap }))

  unfoldable pub get_messages : ℕ → Get (List (ℕ × Payload))
  get_messages zero = give []
  get_messages (suc messages_len) = get o.get_varint >>= λ message_id.
      get_bytes_with_varint_length o >>= λ payload.
      get_messages messages_len >>= λ messages. give ((message_id, payload) ∷ messages)

  unfoldable pub get_payloads : ℕ → Get (List Payload)
  get_payloads zero = give []
  get_payloads (suc messages_len) = get_bytes_with_varint_length o >>= λ payload.
      get_payloads messages_len >>= λ messages. give (payload ∷ messages)

  -- `is_reliable` tells the two arms apart: only that of reliable slices checks the payload.
  unfoldable pub checked_slice : Bool → ℕ → ℕ → ℕ → Get Slice
  checked_slice is_reliable message_id slice_index num_slices =
      get_bytes_with_varint_length o >>= λ payload.
      let slice : Slice = record {
        message_id = message_id;
        slice_index = slice_index;
        num_slices = num_slices;
        payload = payload;
      } in
      if is_reliable
      then (if length payload == 0
          then fail empty_slice
          else if ltb slice_size (length payload)
          then fail slice_size_above_limit
          else give slice)
      else give slice

  unfoldable pub get_slice : Bool → Get Slice
  get_slice is_reliable = get o.get_varint >>= λ message_id. get o.get_varint >>= λ slice_index.
      get o.get_varint >>= λ num_slices.
      if (num_slices == 0) || ltb 1000000 num_slices
      then fail invalid_num_slices
      else checked_slice is_reliable message_id slice_index num_slices

  -- The loop over the remaining ranges. The ranges are pushed, and the whole is reversed at last.
  unfoldable pub get_ranges : ℕ → ℕ → List Range → Get (List Range)
  get_ranges zero previous_range_start ack_ranges = give ack_ranges
  get_ranges (suc remaining) previous_range_start ack_ranges = get o.get_varint >>= λ gap.
      if ltb previous_range_start (add_u64 2 gap)
      then fail invalid_ack_range
      else (get o.get_varint >>= λ range_size.
          let range_end = sub_u64 (sub_u64 previous_range_start gap) 2 in
          let range_start = sub_u64 range_end range_size in
          if ltb range_end range_size
          then fail invalid_ack_range
          else get_ranges remaining range_start
              (record { start = range_start; end = add_u64 range_end 1 } ∷ ack_ranges))

  unfoldable pub get_acks : Get (List Range)
  get_acks = get o.get_varint >>= λ first_range_end. get o.get_varint >>= λ first_range_size.
      get o.get_varint >>= λ num_remaining_ranges.
      let first_range_start = sub_u64 first_range_end first_range_size in
      if ltb first_range_end first_range_size
      then fail invalid_ack_range
      else get_ranges num_remaining_ranges first_range_start
          (record { start = first_range_start; end = add_u64 first_range_end 1 } ∷ [])

  unfoldable pub get_small_reliable : Get Packet
  get_small_reliable = get o.get_varint >>= λ sequence. get o.get_u8 >>= λ channel_id.
      get o.get_u16 >>= λ messages_len.
      get_messages messages_len >>= λ messages. give (small_reliable sequence channel_id messages)

  unfoldable pub get_small_unreliable : Get Packet
  get_small_unreliable = get o.get_varint >>= λ sequence. get o.get_u8 >>= λ channel_id.
      get o.get_u16 >>= λ messages_len.
      get_payloads messages_len >>= λ messages. give (small_unreliable sequence channel_id messages)

  unfoldable pub get_reliable_slice : Get Packet
  get_reliable_slice = get o.get_varint >>= λ sequence. get o.get_u8 >>= λ channel_id.
      get_slice true >>= λ slice. give (reliable_slice sequence channel_id slice)

  unfoldable pub get_unreliable_slice : Get Packet
  get_unreliable_slice = get o.get_varint >>= λ sequence. get o.get_u8 >>= λ channel_id.
      get_slice false >>= λ slice. give (unreliable_slice sequence channel_id slice)

  unfoldable pub get_ack : Get Packet
  get_ack =
      get o.get_varint >>= λ sequence. get_acks >>= λ ack_ranges. give (ack sequence ack_ranges)

  -- The match on the packet's type.
  unfoldable pub get_arm : ℕ → Get Packet
  get_arm packet_type =
      if packet_type == 0
      then get_small_reliable
      else if packet_type == 1
      then get_small_unreliable
      else if packet_type == 2
      then get_reliable_slice
      else if packet_type == 3
      then get_unreliable_slice
      else if packet_type == 4
      then get_ack
      else fail invalid_packet_type

  unfoldable pub get_packet : Get Packet
  get_packet = get o.get_u8 >>= λ packet_type. get_arm packet_type

  -- What is left of the buffer is dropped.
  unfoldable pub from_bytes : Payload → Result Packet SerializationError
  from_bytes b = read_of (get_packet b)
