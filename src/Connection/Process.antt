-- ===== src/Connection/Process.antt =====
-- What renet/src/remote_connection.rs does with the packets of a reliable channel: `process_packet`
-- once it has found the channel, the record that `get_packets_to_send` keeps of a packet, and what
-- `process_packet` does when that packet is acked.
pub mod Arrive
use renet.Base.{ℕ, suc, zero, Option, none, some, List, [], ◌∷◌, map}
use renet.Base.Word.{sub_u64}
use renet.Base.Outcome.{Outcome, returns, panics, unwrap, ◌>>=◌, Result, ok, err}
use renet.Error.{ChannelError}
use renet.Packet.{
  Bytes, Range, Packet, small_reliable, small_unreliable, unreliable_slice, reliable_slice, ack,
}
use renet.Channel.Reliable.Send.{
  SendChannelReliable, process_message_ack, process_slice_message_ack,
}
use renet.Channel.Reliable.Receive.{ReceiveChannelReliable, process_message, process_slice}

pub data PacketSentInfo : Type 0 where
  no_info : PacketSentInfo
  reliable_messages : (channel_id : ℕ) → (message_ids : List ℕ) → PacketSentInfo
  reliable_slice_message : (channel_id : ℕ) → (message_id : ℕ) → (slice_index : ℕ) → PacketSentInfo
  ack_info : (largest_acked_packet : ℕ) → PacketSentInfo

-- The loop over the messages, which the first error ends.
unfoldable pub process_messages :
    ReceiveChannelReliable
    → List (ℕ × Bytes)
    → ReceiveChannelReliable × Result (Unit {0}) ChannelError
process_messages ch [] = (ch, ok tt)
process_messages ch ((message_id, message) ∷ messages) =
    let (ch', r) = process_message ch message message_id in
    let rest = process_messages ch' messages in elim r [ ok _ ↦ rest | err e ↦ (ch', err e) ]

-- A packet that a reliable channel is found for, or another one, which is not for it.
unfoldable pub process_reliable :
    ReceiveChannelReliable
    → Packet
    → Outcome (ReceiveChannelReliable × Result (Unit {0}) ChannelError)
process_reliable ch (small_reliable _ _ messages) = returns (process_messages ch messages)
process_reliable ch (reliable_slice _ _ slice) = process_slice ch slice
process_reliable ch (small_unreliable _ _ _) = returns (ch, ok tt)
process_reliable ch (unreliable_slice _ _ _) = returns (ch, ok tt)
process_reliable ch (ack _ _) = returns (ch, ok tt)

unfoldable pub last : {A : Type 0} → List A → Option A
last [] = none
last (x ∷ []) = some x
last (x ∷ y ∷ xs) = last (y ∷ xs)

-- The info that is kept of a packet that is sent.
unfoldable pub sent_info : Packet → Outcome PacketSentInfo
sent_info (small_reliable _ channel_id messages) =
    returns (reliable_messages channel_id (map (λ e. e.0) messages))
sent_info (reliable_slice _ channel_id slice) =
    returns (reliable_slice_message channel_id slice.message_id slice.slice_index)
sent_info (small_unreliable _ _ _) = returns no_info
sent_info (unreliable_slice _ _ _) = returns no_info
sent_info (ack _ ack_ranges) = do
  last_range ← unwrap (last ack_ranges)
  returns (ack_info (sub_u64 last_range.end 1))

unfoldable pub process_message_acks : SendChannelReliable → List ℕ → Outcome SendChannelReliable
process_message_acks ch [] = returns ch
process_message_acks ch (message_id ∷ message_ids) =
    process_message_ack ch message_id >>= λ ch'. process_message_acks ch' message_ids

-- What the ack of a packet does to the reliable channel that its info names.
unfoldable pub process_reliable_ack :
    SendChannelReliable → PacketSentInfo → Outcome SendChannelReliable
process_reliable_ack ch (reliable_messages _ message_ids) = process_message_acks ch message_ids
process_reliable_ack ch (reliable_slice_message _ message_id slice_index) =
    process_slice_message_ack ch message_id slice_index
process_reliable_ack ch no_info = returns ch
process_reliable_ack ch (ack_info _) = returns ch
