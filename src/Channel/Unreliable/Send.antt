-- ===== src/Channel/Unreliable/Send.antt =====
-- The sender of renet/src/channel/unreliable.rs. Its log lines are left out.
use renet.Base.{ℕ, zero, suc, ◌+◌, Bool, List, [], ◌∷◌, ◌++◌, ltb, leb, ◌==◌, if◌then◌else◌, length}
use renet.Base.Word.{add_u64, sub_u64, mul_u64}
use renet.Base.Outcome.{Outcome, returns, ◌>>=◌}
use renet.Packet.{Bytes, Packet, small_unreliable, unreliable_slice, Slice, slice_size}
use renet.Channel.Pieces.{slice_range, div_ceil_slices}
use renet.Channel.Reliable.Send.{Sent}

pub record SendChannelUnreliable : Type 0 where
  pub channel_id : ℕ
  pub unreliable_messages : List Bytes
  pub sliced_message_id : ℕ
  pub max_memory_usage_bytes : ℕ
  pub memory_usage_bytes : ℕ

unfoldable pub new : ℕ → ℕ → SendChannelUnreliable
new channel_id max_memory_usage_bytes = record {
  channel_id = channel_id;
  unreliable_messages = [];
  sliced_message_id = 0;
  max_memory_usage_bytes = max_memory_usage_bytes;
  memory_usage_bytes = 0;
}

unfoldable pub can_send_message : SendChannelUnreliable → ℕ → Bool
can_send_message ch size_bytes =
    leb (add_u64 size_bytes ch.memory_usage_bytes) ch.max_memory_usage_bytes

unfoldable pub available_memory : SendChannelUnreliable → ℕ
available_memory ch = sub_u64 ch.max_memory_usage_bytes ch.memory_usage_bytes

unfoldable pub send_message : SendChannelUnreliable → Bytes → SendChannelUnreliable
send_message ch message =
    if ltb ch.max_memory_usage_bytes (add_u64 ch.memory_usage_bytes (length message))
    then ch
    else record ch {
      memory_usage_bytes = add_u64 ch.memory_usage_bytes (length message);
      unreliable_messages = ch.unreliable_messages ++ (message ∷ []);
    }

-- The variables of the loop over the messages, the channel's own counters included.
pub record Sending : Type 0 where
  pub packets : List Packet
  pub small_messages : List Bytes
  pub small_messages_bytes : ℕ
  pub packet_sequence : ℕ
  pub available_bytes : ℕ
  pub sliced_message_id : ℕ
  pub memory_usage_bytes : ℕ

module _ (varint_len : ℕ → ℕ) (channel_id : ℕ) where
  -- Pushes the packet of the small messages that are gathered.
  unfoldable pub flush : Sending → Sending
  flush st = record st {
    packets = st.packets ++ (small_unreliable st.packet_sequence channel_id st.small_messages ∷ []);
    small_messages = [];
    small_messages_bytes = 0;
    packet_sequence = add_u64 st.packet_sequence 1;
  }

  unfoldable pub push_small : Bytes → Sending → Sending
  push_small message st =
      let size = add_u64 (length message) (varint_len (length message)) in
      let st' : Sending =
        if ltb slice_size (add_u64 st.small_messages_bytes size) then flush st else st in
      record st' {
        small_messages_bytes = add_u64 st'.small_messages_bytes size;
        small_messages = st'.small_messages ++ (message ∷ []);
      }

  unfoldable pub push_slice : Bytes → ℕ → ℕ → Sending → Outcome Sending
  push_slice message num_slices slice_index st = do
    let start = mul_u64 slice_index slice_size
    let end =
        if slice_index == sub_u64 num_slices 1
        then length message
        else mul_u64 (add_u64 slice_index 1) slice_size
    payload ← slice_range message start end
    let slice : Slice = record {
      message_id = st.sliced_message_id;
      slice_index = slice_index;
      num_slices = num_slices;
      payload = payload;
    }
    returns (record st {
      packets = st.packets ++ (unreliable_slice st.packet_sequence channel_id slice ∷ []);
      packet_sequence = add_u64 st.packet_sequence 1;
    })

  -- `for slice_index in 0..num_slices` with `left` rounds left.
  unfoldable pub push_slices : Bytes → ℕ → ℕ → ℕ → Sending → Outcome Sending
  push_slices message num_slices zero slice_index st = returns st
  push_slices message num_slices (suc left) slice_index st =
      push_slice message num_slices slice_index st >>= λ st'.
      push_slices message num_slices left (slice_index + 1) st'

  unfoldable pub push_message : Bytes → Sending → Outcome Sending
  push_message message st =
      let num_slices = div_ceil_slices (length message) in
      if ltb slice_size (length message)
      then (push_slices message num_slices num_slices 0 st >>= λ st'.
          returns (record st' { sliced_message_id = add_u64 st'.sliced_message_id 1 }))
      else returns (push_small message st)

  -- A message for which no bytes are left is dropped.
  unfoldable pub send_one : Bytes → Sending → Outcome Sending
  send_one message st =
      let freed : Sending = record st {
        memory_usage_bytes = sub_u64 st.memory_usage_bytes (length message);
      } in
      if ltb st.available_bytes (length message)
      then returns freed
      else push_message message
          (record freed { available_bytes = sub_u64 st.available_bytes (length message) })

  -- `while let Some(message) = self.unreliable_messages.pop_front()`.
  unfoldable pub send_all : List Bytes → Sending → Outcome Sending
  send_all [] st = returns st
  send_all (message ∷ messages) st = send_one message st >>= λ st'. send_all messages st'

  unfoldable pub flush_rest : Sending → Sending
  flush_rest st = elim st.small_messages [ [] ↦ st | _ ∷ _ ↦ flush st ]

unfoldable pub get_packets_to_send :
    (ℕ → ℕ) → SendChannelUnreliable → ℕ → ℕ → Outcome (Sent SendChannelUnreliable)
get_packets_to_send varint_len ch packet_sequence available_bytes =
    let start : Sending = record {
      packets = [];
      small_messages = [];
      small_messages_bytes = 0;
      packet_sequence = packet_sequence;
      available_bytes = available_bytes;
      sliced_message_id = ch.sliced_message_id;
      memory_usage_bytes = ch.memory_usage_bytes;
    } in
    send_all varint_len ch.channel_id ch.unreliable_messages start >>= λ st.
    let st' = flush_rest varint_len ch.channel_id st in
    returns (record {
      channel = record ch {
        unreliable_messages = [];
        sliced_message_id = st'.sliced_message_id;
        memory_usage_bytes = st'.memory_usage_bytes;
      };
      packets = st'.packets;
      packet_sequence = st'.packet_sequence;
      available_bytes = st'.available_bytes;
    })
