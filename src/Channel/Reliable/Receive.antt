-- ===== src/Channel/Reliable/Receive.antt =====
-- The receiver of renet/src/channel/reliable.rs. The set of received ids is a map to nothing.
pub mod Messages
pub mod Slicing
pub mod Genuine
pub mod Take
pub mod Order
pub mod Remembers
pub mod Gives
pub mod Once
mod Tests
use renet.Base.{
  ℕ, zero, suc, ◌+◌, Bool, true, false, Option, none, some, List, [], ◌∷◌, ltb, ◌==◌, ◌||◌,
  if◌then◌else◌, length,
}
use renet.Base.Word.{add_u64, sub_u64, mul_u64}
use renet.Base.Map.{Map, get, insert, remove, contains_key}
use renet.Base.Outcome.{Outcome, returns, panics, Result, ok, err, ◌>>=◌}
use renet.Error.{ChannelError, reliable_channel_max_memory_reached}
use renet.Packet.{Bytes, Slice, slice_size}
use renet.Channel.Slices
use renet.Channel.Slices.{SliceConstructor}

pub data ReliableOrder : Type 0 where
  ordered : ReliableOrder
  unordered : (most_recent_message_id : ℕ) → (received_messages : Map (Unit {0})) → ReliableOrder

pub record ReceiveChannelReliable : Type 0 where
  pub slices : Map SliceConstructor
  pub messages : Map Bytes
  pub oldest_pending_message_id : ℕ
  pub reliable_order : ReliableOrder
  pub memory_usage_bytes : ℕ
  pub max_memory_usage_bytes : ℕ

unfoldable pub new : ℕ → Bool → ReceiveChannelReliable
new max_memory_usage_bytes is_ordered = record {
  slices = [];
  messages = [];
  oldest_pending_message_id = 0;
  reliable_order = if is_ordered then ordered else unordered 0 [];
  memory_usage_bytes = 0;
  max_memory_usage_bytes = max_memory_usage_bytes;
}

-- The memory check and the insertion, which both orders make.
unfoldable pub insert_message :
    ReceiveChannelReliable
    → ReliableOrder
    → Bytes
    → ℕ
    → ReceiveChannelReliable × Result (Unit {0}) ChannelError
insert_message ch order message message_id =
    if ltb ch.max_memory_usage_bytes (add_u64 ch.memory_usage_bytes (length message))
    then (ch, err reliable_channel_max_memory_reached)
    else (
      record ch {
        memory_usage_bytes = add_u64 ch.memory_usage_bytes (length message);
        messages = insert ch.messages message_id message;
        reliable_order = order;
      },
      ok tt,
    )

unfoldable pub process_in_order :
    ReceiveChannelReliable
    → ReliableOrder
    → Bytes
    → ℕ
    → ReceiveChannelReliable × Result (Unit {0}) ChannelError
process_in_order ch ordered message message_id =
    if contains_key ch.messages message_id
    then (ch, ok tt)
    else insert_message ch ordered message message_id
process_in_order ch (unordered most_recent received) message message_id =
    let recent = if ltb most_recent message_id then message_id else most_recent in
    let ch' : ReceiveChannelReliable = record ch { reliable_order = unordered recent received } in
    if contains_key received message_id
    then (ch', ok tt)
    else insert_message ch' (unordered recent (insert received message_id tt)) message message_id

unfoldable pub process_message :
    ReceiveChannelReliable → Bytes → ℕ → ReceiveChannelReliable × Result (Unit {0}) ChannelError
process_message ch message message_id =
    if ltb message_id ch.oldest_pending_message_id
    then (ch, ok tt)
    else process_in_order ch ch.reliable_order message message_id

-- What follows the slice constructor's answer.
unfoldable pub slice_done :
    ReceiveChannelReliable
    → Slice
    → Result (Option Bytes) ChannelError
    → ReceiveChannelReliable × Result (Unit {0}) ChannelError
slice_done ch slice (err e) = (ch, err e)
slice_done ch slice (ok none) = (ch, ok tt)
slice_done ch slice (ok (some message)) =
    let freed : ReceiveChannelReliable = record ch {
      memory_usage_bytes = sub_u64 ch.memory_usage_bytes (mul_u64 slice.num_slices slice_size);
    } in
    let (ch', r) = process_message freed message slice.message_id in
    elim r [
      | ok _ ↦ (record ch' { slices = remove ch'.slices slice.message_id }, ok tt)
      | err e ↦ (ch', err e)
    ]

unfoldable pub slice_into :
    ReceiveChannelReliable
    → Slice
    → SliceConstructor
    → Outcome (ReceiveChannelReliable × Result (Unit {0}) ChannelError)
slice_into ch slice constructor = do
  (c, r) ← Slices.process_slice constructor slice.slice_index slice.payload
  returns (slice_done (record ch { slices = insert ch.slices slice.message_id c }) slice r)

unfoldable pub process_slice :
    ReceiveChannelReliable
    → Slice
    → Outcome (ReceiveChannelReliable × Result (Unit {0}) ChannelError)
process_slice ch slice =
    let message_len = mul_u64 slice.num_slices slice_size in
    let reserved : ReceiveChannelReliable = record ch {
      memory_usage_bytes = add_u64 ch.memory_usage_bytes message_len;
    } in
    if contains_key ch.messages slice.message_id
      || ltb slice.message_id ch.oldest_pending_message_id
    then returns (ch, ok tt)
    else elim (get ch.slices slice.message_id) [
      | some constructor ↦ slice_into ch slice constructor
      | none ↦
          if ltb ch.max_memory_usage_bytes (add_u64 ch.memory_usage_bytes message_len)
          then returns (ch, err reliable_channel_max_memory_reached)
          else slice_into reserved slice (Slices.new slice.message_id slice.num_slices)
    ]

-- `while received_messages.contains(&oldest)`. Each round removes an id, so that the number of ids
-- is fuel enough.
unfoldable pub advance_oldest : ℕ → Map (Unit {0}) → ℕ → Map (Unit {0}) × ℕ
advance_oldest zero received oldest = (received, oldest)
advance_oldest (suc fuel) received oldest = elim (contains_key received oldest) [
  | true ↦ advance_oldest fuel (remove received oldest) (add_u64 oldest 1)
  | false ↦ (received, oldest)
]

unfoldable pub receive_ordered : ReceiveChannelReliable → ReceiveChannelReliable × Option Bytes
receive_ordered ch = elim (get ch.messages ch.oldest_pending_message_id) [
  | none ↦ (ch, none)
  | some message ↦ (
    record ch {
      messages = remove ch.messages ch.oldest_pending_message_id;
      oldest_pending_message_id = add_u64 ch.oldest_pending_message_id 1;
      memory_usage_bytes = sub_u64 ch.memory_usage_bytes (length message);
    },
    some message,
  )
]

unfoldable pub receive_unordered :
    ReceiveChannelReliable → ℕ → Map (Unit {0}) → Map Bytes → ReceiveChannelReliable × Option Bytes
receive_unordered ch most_recent received [] = (ch, none)
receive_unordered ch most_recent received ((message_id, message) ∷ rest) =
    let oldest = ch.oldest_pending_message_id in
    let (received', oldest') =
      if oldest == message_id
      then advance_oldest (length received) received oldest
      else (received, oldest) in
    (
      record ch {
        messages = rest;
        oldest_pending_message_id = oldest';
        reliable_order = unordered most_recent received';
        memory_usage_bytes = sub_u64 ch.memory_usage_bytes (length message);
      },
      some message,
    )

unfoldable pub receive_message : ReceiveChannelReliable → ReceiveChannelReliable × Option Bytes
receive_message ch = elim ch.reliable_order [
  | ordered ↦ receive_ordered ch
  | unordered most_recent received ↦ receive_unordered ch most_recent received ch.messages
]
