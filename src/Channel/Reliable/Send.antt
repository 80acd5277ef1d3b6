-- ===== src/Channel/Reliable/Send.antt =====
-- The sender of renet/src/channel/reliable.rs. `varint_len` is that of the crate octets.
pub mod Loop
pub mod Sends
pub mod Packets
pub mod Accounts
pub mod Acks
mod Tests
use renet.Base.{
  ℕ, zero, suc, ◌+◌, ◌-◌, ◌*◌, ◌/◌, ◌%◌, ◌^◌, Bool, true, false, Option, none, some, List, [], ◌∷◌,
  ◌++◌, ltb, leb, ◌==◌, if◌then◌else◌, length, get_elem?, set, replicate, ◌&&◌,
}
use renet.Base.Word.{add_u64, sub_u64, mul_u64}
use renet.Base.Map.{Map, get, insert, remove}
use renet.Base.Outcome.{Outcome, returns, panics, Result, ok, err, ◌>>=◌, unwrap}
use renet.Error.{ChannelError, reliable_channel_max_memory_reached}
use renet.Packet.{Bytes, Packet, small_reliable, reliable_slice, Slice, slice_size}
use renet.Channel.Pieces.{slice_range, div_ceil_slices}

pub record SlicedMessage : Type 0 where
  pub message : Bytes
  pub num_slices : ℕ
  pub num_acked_slices : ℕ
  pub next_slice_to_send : ℕ
  pub acked : List Bool
  pub last_sent : List (Option ℕ)

pub data UnackedMessage : Type 0 where
  small : (message : Bytes) → (last_sent : Option ℕ) → UnackedMessage
  sliced : SlicedMessage → UnackedMessage

pub record SendChannelReliable : Type 0 where
  pub channel_id : ℕ
  pub unacked_messages : Map UnackedMessage
  pub next_reliable_message_id : ℕ
  pub resend_time : ℕ
  pub max_memory_usage_bytes : ℕ
  pub memory_usage_bytes : ℕ

unfoldable pub new_sliced : Bytes → SlicedMessage
new_sliced payload = record {
  message = payload;
  num_slices = div_ceil_slices (length payload);
  num_acked_slices = 0;
  next_slice_to_send = 0;
  acked = replicate (div_ceil_slices (length payload)) false;
  last_sent = replicate (div_ceil_slices (length payload)) none;
}

unfoldable pub new : ℕ → ℕ → ℕ → SendChannelReliable
new channel_id resend_time max_memory_usage_bytes = record {
  channel_id = channel_id;
  unacked_messages = [];
  next_reliable_message_id = 0;
  resend_time = resend_time;
  max_memory_usage_bytes = max_memory_usage_bytes;
  memory_usage_bytes = 0;
}

unfoldable pub available_memory : SendChannelReliable → ℕ
available_memory ch = sub_u64 ch.max_memory_usage_bytes ch.memory_usage_bytes

unfoldable pub can_send_message : SendChannelReliable → ℕ → Bool
can_send_message ch size_bytes =
    leb (add_u64 size_bytes ch.memory_usage_bytes) ch.max_memory_usage_bytes

unfoldable pub send_message :
    SendChannelReliable → Bytes → SendChannelReliable × Result (Unit {0}) ChannelError
send_message ch message =
    let unacked_message =
      if ltb slice_size (length message) then sliced (new_sliced message) else small message none in
    if ltb ch.max_memory_usage_bytes (add_u64 ch.memory_usage_bytes (length message))
    then (ch, err reliable_channel_max_memory_reached)
    else (
      record ch {
        memory_usage_bytes = add_u64 ch.memory_usage_bytes (length message);
        unacked_messages = insert ch.unacked_messages ch.next_reliable_message_id unacked_message;
        next_reliable_message_id = add_u64 ch.next_reliable_message_id 1;
      },
      ok tt,
    )

-- `unreachable!` for a message that was sliced.
unfoldable pub process_message_ack : SendChannelReliable → ℕ → Outcome SendChannelReliable
process_message_ack ch message_id = elim (get ch.unacked_messages message_id) [
  | none ↦ returns ch
  | some (small payload _) ↦ returns (record ch {
    unacked_messages = remove ch.unacked_messages message_id;
    memory_usage_bytes = sub_u64 ch.memory_usage_bytes (length payload);
  })
  | some (sliced _) ↦ panics
]

pub ack_slice : SendChannelReliable → ℕ → ℕ → SlicedMessage → Outcome SendChannelReliable
ack_slice ch message_id slice_index u = do
  seen ← unwrap (get_elem? u.acked slice_index)
  let u' : SlicedMessage = record u {
    acked = set u.acked slice_index true;
    num_acked_slices = add_u64 u.num_acked_slices 1;
  }
  returns (
      if seen
      then ch
      else if u'.num_acked_slices == u'.num_slices
      then record ch {
        memory_usage_bytes = sub_u64 ch.memory_usage_bytes (length u.message);
        unacked_messages = remove ch.unacked_messages message_id;
      }
      else record ch { unacked_messages = insert ch.unacked_messages message_id (sliced u') })

unfoldable pub process_slice_message_ack : SendChannelReliable → ℕ → ℕ → Outcome SendChannelReliable
unfolding ack_slice
process_slice_message_ack ch message_id slice_index = elim (get ch.unacked_messages message_id) [
  | none ↦ returns ch
  | some (small _ _) ↦ panics
  | some (sliced u) ↦ ack_slice ch message_id slice_index u
]

-- The variables of the loop over the messages.
pub record Sending : Type 0 where
  pub packets : List Packet
  pub small_messages : List (ℕ × Bytes)
  pub small_messages_bytes : ℕ
  pub packet_sequence : ℕ
  pub available_bytes : ℕ

module _ (varint_len : ℕ → ℕ) (channel_id resend_time current_time : ℕ) where
  -- `current_time - last_sent < self.resend_time`.
  unfoldable pub sent_recently : Option ℕ → Outcome Bool
  sent_recently none = returns false
  sent_recently (some last_sent) =
      if ltb current_time last_sent
      then panics
      else returns (ltb (current_time - last_sent) resend_time)

  -- Pushes the packet of the small messages that are gathered.
  unfoldable pub flush : Sending → Sending
  flush st = record {
    packets = st.packets ++ (small_reliable st.packet_sequence channel_id st.small_messages ∷ []);
    small_messages = [];
    small_messages_bytes = 0;
    packet_sequence = add_u64 st.packet_sequence 1;
    available_bytes = st.available_bytes;
  }

  unfoldable pub serialized_size : ℕ → Bytes → ℕ
  serialized_size message_id message =
      add_u64 (add_u64 (length message) (varint_len (length message))) (varint_len message_id)

  unfoldable pub push_small : ℕ → Bytes → Sending → Sending
  push_small message_id message st =
      let size = serialized_size message_id message in
      let st' : Sending =
        if ltb slice_size (add_u64 st.small_messages_bytes size) then flush st else st in
      record st' {
        small_messages_bytes = add_u64 st'.small_messages_bytes size;
        small_messages = st'.small_messages ++ ((message_id, message) ∷ []);
      }

  unfoldable pub send_small : ℕ → Bytes → Option ℕ → Sending → Outcome (Sending × UnackedMessage)
  send_small message_id message last_sent st =
      let spent : Sending = record st {
        available_bytes = sub_u64 st.available_bytes (length message);
      } in
      if ltb st.available_bytes (length message) then returns (st, small message last_sent) else (do
        recent ← sent_recently last_sent
        returns (
            if recent
            then (st, small message last_sent)
            else (push_small message_id message spent, small message (some current_time))))

  -- One slice that is due. The precedence of `i + 1 % *num_slices` is the source's.
  unfoldable pub push_slice : ℕ → ℕ → SlicedMessage → Sending → Outcome (Sending × SlicedMessage)
  push_slice message_id i u st = do
    let start = mul_u64 i slice_size
    let end =
        if i == sub_u64 u.num_slices 1 then length u.message else mul_u64 (add_u64 i 1) slice_size
    payload ← slice_range u.message start end
    let slice : Slice = record {
      message_id = message_id;
      slice_index = i;
      num_slices = u.num_slices;
      payload = payload;
    }
    returns (
      record st {
        available_bytes = sub_u64 st.available_bytes (length payload);
        packets = st.packets ++ (reliable_slice st.packet_sequence channel_id slice ∷ []);
        packet_sequence = add_u64 st.packet_sequence 1;
      },
      record u {
        last_sent = set u.last_sent i (some current_time);
        next_slice_to_send = add_u64 i (1 % u.num_slices);
      },
    )

  unfoldable pub send_slice : ℕ → ℕ → SlicedMessage → Sending → Outcome (Sending × SlicedMessage)
  send_slice message_id i u st = do
    acked ← unwrap (get_elem? u.acked i)
    let due = (do
      last_sent ← unwrap (get_elem? u.last_sent i)
      recent ← sent_recently last_sent
      (if recent then returns (st, u) else push_slice message_id i u st))
    (if acked then returns (st, u) else due)

  -- `for i in 0..num_slices` with `left` rounds left; no bytes for a slice end the message.
  unfoldable pub send_slices :
      ℕ → ℕ → ℕ → ℕ → SlicedMessage → Sending → Outcome (Sending × SlicedMessage)
  send_slices message_id start_index zero i u st = returns (st, u)
  send_slices message_id start_index (suc left) i u st = elim (ltb st.available_bytes slice_size) [
    | true ↦ returns (st, u)
    | false ↦ send_slice message_id (add_u64 start_index i % u.num_slices) u st >>= λ (st', u').
        send_slices message_id start_index left (add_u64 i 1) u' st'
  ]

  unfoldable pub send_unacked : ℕ → UnackedMessage → Sending → Outcome (Sending × UnackedMessage)
  send_unacked message_id (small message last_sent) st = send_small message_id message last_sent st
  send_unacked message_id (sliced u) st = do
    (st', u') ← send_slices message_id u.next_slice_to_send u.num_slices 0 u st
    returns (st', sliced u')

  -- The loop over `unacked_messages`, which `iter_mut` visits in the order of the ids.
  unfoldable pub send_all : Map UnackedMessage → Sending → Outcome (Sending × Map UnackedMessage)
  send_all [] st = returns (st, [])
  send_all ((message_id, u) ∷ rest) st = send_unacked message_id u st >>= λ (st', u').
      send_all rest st' >>= λ (st'', rest'). returns (st'', (message_id, u') ∷ rest')

  unfoldable pub flush_rest : Sending → Sending
  flush_rest st = elim st.small_messages [ [] ↦ st | _ ∷ _ ↦ flush st ]

-- What `get_packets_to_send` returns, and what it writes through its two references.
pub record Sent (Channel : Type 0) : Type 0 where
  pub channel : Channel
  pub packets : List Packet
  pub packet_sequence : ℕ
  pub available_bytes : ℕ

unfoldable pub get_packets_to_send :
    (ℕ → ℕ) → SendChannelReliable → ℕ → ℕ → ℕ → Outcome (Sent SendChannelReliable)
get_packets_to_send varint_len ch packet_sequence available_bytes current_time =
    let start : Sending = record {
      packets = [];
      small_messages = [];
      small_messages_bytes = 0;
      packet_sequence = packet_sequence;
      available_bytes = available_bytes;
    } in
    send_all varint_len ch.channel_id ch.resend_time current_time ch.unacked_messages start
    >>= λ (st, unacked_messages).
        let st' = flush_rest varint_len ch.channel_id ch.resend_time current_time st in
        returns (record {
          channel = record ch { unacked_messages = unacked_messages };
          packets = st'.packets;
          packet_sequence = st'.packet_sequence;
          available_bytes = st'.available_bytes;
        })
