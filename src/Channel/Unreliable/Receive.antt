-- ===== src/Channel/Unreliable/Receive.antt =====
-- The receiver of renet/src/channel/unreliable.rs. Its log lines are left out, and times count
-- nanoseconds.
pub mod Memory
pub mod Discard
pub mod Pairing
pub mod Runs
use renet.Base.{
  ℕ, ◌+◌, ◌-◌, Bool, true, false, Option, none, some, List, [], ◌∷◌, ◌++◌, ltb, leb, if◌then◌else◌,
  length,
}
use renet.Base.Word.{add_u64, sub_u64, mul_u64}
use renet.Base.Map.{Map, get, insert, remove}
use renet.Base.Outcome.{Outcome, returns, panics, unwrap, ◌>>=◌, Result, ok, err}
use renet.Error.{ChannelError}
use renet.Packet.{Bytes, Slice, slice_size}
use renet.Channel.Slices
use renet.Channel.Slices.{SliceConstructor}

pub record ReceiveChannelUnreliable : Type 0 where
  pub channel_id : ℕ
  pub messages : List Bytes
  pub slices : Map SliceConstructor
  pub slices_last_received : Map ℕ
  pub max_memory_usage_bytes : ℕ
  pub memory_usage_bytes : ℕ

unfoldable pub new : ℕ → ℕ → ReceiveChannelUnreliable
new channel_id max_memory_usage_bytes = record {
  channel_id = channel_id;
  messages = [];
  slices = [];
  slices_last_received = [];
  max_memory_usage_bytes = max_memory_usage_bytes;
  memory_usage_bytes = 0;
}

unfoldable pub process_message : ReceiveChannelUnreliable → Bytes → ReceiveChannelUnreliable
process_message ch message =
    if ltb ch.max_memory_usage_bytes (add_u64 ch.memory_usage_bytes (length message))
    then ch
    else record ch {
      memory_usage_bytes = add_u64 ch.memory_usage_bytes (length message);
      messages = ch.messages ++ (message ∷ []);
    }

-- What follows the slice constructor's answer; `?` passes an error on.
unfoldable pub slice_done :
    ReceiveChannelUnreliable
    → Slice
    → ℕ
    → Result (Option Bytes) ChannelError
    → ReceiveChannelUnreliable × Result (Unit {0}) ChannelError
slice_done ch slice current_time (err e) = (ch, err e)
slice_done ch slice current_time (ok none) = (
  record ch { slices_last_received = insert ch.slices_last_received slice.message_id current_time },
  ok tt,
)
slice_done ch slice current_time (ok (some message)) = (
  record ch {
    slices = remove ch.slices slice.message_id;
    slices_last_received = remove ch.slices_last_received slice.message_id;
    memory_usage_bytes =
        add_u64 (sub_u64 ch.memory_usage_bytes (mul_u64 slice.num_slices slice_size))
          (length message);
    messages = ch.messages ++ (message ∷ []);
  },
  ok tt,
)

unfoldable pub slice_into :
    ReceiveChannelUnreliable
    → Slice
    → ℕ
    → SliceConstructor
    → Outcome (ReceiveChannelUnreliable × Result (Unit {0}) ChannelError)
slice_into ch slice current_time constructor = do
  (c, r) ← Slices.process_slice constructor slice.slice_index slice.payload
  returns
      (slice_done (record ch { slices = insert ch.slices slice.message_id c }) slice current_time r)

unfoldable pub process_slice :
    ReceiveChannelUnreliable
    → Slice
    → ℕ
    → Outcome (ReceiveChannelUnreliable × Result (Unit {0}) ChannelError)
process_slice ch slice current_time =
    let message_len = mul_u64 slice.num_slices slice_size in
    let reserved : ReceiveChannelUnreliable = record ch {
      memory_usage_bytes = add_u64 ch.memory_usage_bytes message_len;
    } in
    elim (get ch.slices slice.message_id) [
      | some constructor ↦ slice_into ch slice current_time constructor
      | none ↦
          if ltb ch.max_memory_usage_bytes (add_u64 ch.memory_usage_bytes message_len)
          then returns (ch, ok tt)
          else slice_into reserved slice current_time (Slices.new slice.message_id slice.num_slices)
    ]

abbrev pub discard_after : ℕ
discard_after = 3000000000

-- The ids of the messages to discard, up to the first that is not.
unfoldable pub lost_messages : Map ℕ → ℕ → Outcome (List ℕ)
lost_messages [] current_time = returns []
lost_messages ((message_id, last_received) ∷ rest) current_time =
    let more = lost_messages rest current_time in
    if ltb current_time last_received
    then panics
    else if leb discard_after (current_time - last_received)
    then (more >>= λ ids. returns (message_id ∷ ids))
    else returns []

unfoldable pub discard_messages :
    ReceiveChannelUnreliable → List ℕ → Outcome ReceiveChannelUnreliable
discard_messages ch [] = returns ch
discard_messages ch (message_id ∷ ids) = unwrap (get ch.slices message_id) >>= λ slice.
    discard_messages
      (record ch {
        slices_last_received = remove ch.slices_last_received message_id;
        slices = remove ch.slices message_id;
        memory_usage_bytes = sub_u64 ch.memory_usage_bytes (mul_u64 slice.num_slices slice_size);
      })
      ids

unfoldable pub discard_incomplete_old_slices :
    ReceiveChannelUnreliable → ℕ → Outcome ReceiveChannelUnreliable
discard_incomplete_old_slices ch current_time = do
  ids ← lost_messages ch.slices_last_received current_time
  discard_messages ch ids

unfoldable pub receive_message : ReceiveChannelUnreliable → ReceiveChannelUnreliable × Option Bytes
receive_message ch = elim ch.messages [
  | [] ↦ (ch, none)
  | message ∷ messages ↦ (
    record ch {
      messages = messages;
      memory_usage_bytes = sub_u64 ch.memory_usage_bytes (length message);
    },
    some message,
  )
]
