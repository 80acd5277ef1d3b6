-- ===== src/Connection/Client/Receiving.antt =====
-- `process_packet` and `receive_message` of `RenetClient`.
use renet.Base.{ℕ, Option, none, some, List, [], ◌∷◌, ◌++◌, ltb, if◌then◌else◌}
use renet.Base.Map.{Map, get, insert, remove}
use renet.Base.Outcome.{Outcome, returns, panics, unwrap, ◌>>=◌, Result, ok, err}
use renet.Error.{
  ChannelError, received_invalid_channel_id, receive_channel_error, packet_deserialization,
}
use renet.Packet.{
  Bytes, Payload, Range, Packet, small_reliable, small_unreliable, unreliable_slice, reliable_slice,
  ack, sequence,
}
use renet.Packet.Codec.{Codec}
use renet.Channel.Reliable
use renet.Channel.Reliable.Receive.{ReceiveChannelReliable}
use renet.Channel.Unreliable
use renet.Channel.Unreliable.Receive.{ReceiveChannelUnreliable}
use renet.Connection.Acks.{contains, add_pending_ack, acked_largest}
use renet.Connection.Process.{
  PacketSentInfo, no_info, reliable_messages, reliable_slice_message, ack_info, process_messages,
  process_reliable_ack,
}
use renet.Connection.Client.{PacketSent, RenetClient, is_disconnected, disconnect_with_reason}

-- What a reliable channel's answer does to the client.
unfoldable pub reliable_result :
    RenetClient → ℕ → ReceiveChannelReliable × Result (Unit {0}) ChannelError → RenetClient
reliable_result c channel_id (channel, r) =
    let c' : RenetClient = record c {
      receive_reliable_channels = insert c.receive_reliable_channels channel_id channel;
    } in
    elim r [ ok _ ↦ c' | err e ↦ disconnect_with_reason c' (receive_channel_error channel_id e) ]

unfoldable pub unreliable_result :
    RenetClient → ℕ → ReceiveChannelUnreliable × Result (Unit {0}) ChannelError → RenetClient
unreliable_result c channel_id (channel, r) =
    let c' : RenetClient = record c {
      receive_unreliable_channels = insert c.receive_unreliable_channels channel_id channel;
    } in
    elim r [ ok _ ↦ c' | err e ↦ disconnect_with_reason c' (receive_channel_error channel_id e) ]

unfoldable pub process_unreliable_messages :
    ReceiveChannelUnreliable → List Bytes → ReceiveChannelUnreliable
process_unreliable_messages channel [] = channel
process_unreliable_messages channel (message ∷ messages) =
    process_unreliable_messages (Unreliable.Receive.process_message channel message) messages

-- The keys in a range. `BTreeMap::range` panics when the range ends before it starts.
unfoldable pub keys_in : Map PacketSent → Range → List ℕ
keys_in [] range = []
keys_in ((s, _) ∷ m) range =
    let rest = keys_in m range in if contains range s then s ∷ rest else rest

unfoldable pub new_acks : Map PacketSent → List Range → Outcome (List ℕ)
new_acks sent_packets [] = returns []
new_acks sent_packets (range ∷ ranges) =
    let rest = new_acks sent_packets ranges in
    if ltb range.end range.start
    then panics
    else (rest >>= λ acks. returns (keys_in sent_packets range ++ acks))

-- What the ack of a packet with this info does.
unfoldable pub acked_info : RenetClient → PacketSentInfo → Outcome RenetClient
acked_info c (reliable_messages channel_id message_ids) = do
  channel ← unwrap (get c.send_reliable_channels channel_id)
  channel' ← process_reliable_ack channel (reliable_messages channel_id message_ids)
  returns
      (record c { send_reliable_channels = insert c.send_reliable_channels channel_id channel' })
acked_info c (reliable_slice_message channel_id message_id slice_index) = do
  channel ← unwrap (get c.send_reliable_channels channel_id)
  channel' ← process_reliable_ack channel (reliable_slice_message channel_id message_id slice_index)
  returns
      (record c { send_reliable_channels = insert c.send_reliable_channels channel_id channel' })
acked_info c (ack_info largest_acked_packet) =
    returns (record c { pending_acks = acked_largest c.pending_acks largest_acked_packet })
acked_info c no_info = returns c

-- `self.current_time - sent_packet.sent_at`, for the round trip time, panics when it is negative.
unfoldable pub process_ack : RenetClient → ℕ → Outcome RenetClient
process_ack c packet_sequence = do
  sent_packet ← unwrap (get c.sent_packets packet_sequence)
  let c' : RenetClient = record c { sent_packets = remove c.sent_packets packet_sequence }
  (if ltb c.current_time sent_packet.sent_at then panics else acked_info c' sent_packet.info)

unfoldable pub process_acks : RenetClient → List ℕ → Outcome RenetClient
process_acks c [] = returns c
process_acks c (packet_sequence ∷ acks) =
    process_ack c packet_sequence >>= λ c'. process_acks c' acks

-- The match on the packet.
unfoldable pub process_parsed : RenetClient → Packet → Outcome RenetClient
process_parsed c (small_reliable _ channel_id messages) =
    elim (get c.receive_reliable_channels channel_id) [
      | none ↦ returns (disconnect_with_reason c (received_invalid_channel_id channel_id))
      | some channel ↦ returns (reliable_result c channel_id (process_messages channel messages))
    ]
process_parsed c (small_unreliable _ channel_id messages) =
    elim (get c.receive_unreliable_channels channel_id) [
      | none ↦ returns (disconnect_with_reason c (received_invalid_channel_id channel_id))
      | some channel ↦ returns (record c {
        receive_unreliable_channels =
            insert c.receive_unreliable_channels channel_id
              (process_unreliable_messages channel messages);
      })
    ]
process_parsed c (reliable_slice _ channel_id slice) =
    elim (get c.receive_reliable_channels channel_id) [
      | none ↦ returns (disconnect_with_reason c (received_invalid_channel_id channel_id))
      | some channel ↦ Reliable.Receive.process_slice channel slice >>= λ r.
          returns (reliable_result c channel_id r)
    ]
process_parsed c (unreliable_slice _ channel_id slice) =
    elim (get c.receive_unreliable_channels channel_id) [
      | none ↦ returns (disconnect_with_reason c (received_invalid_channel_id channel_id))
      | some channel ↦ Unreliable.Receive.process_slice channel slice c.current_time >>= λ r.
          returns (unreliable_result c channel_id r)
    ]
process_parsed c (ack _ ack_ranges) = new_acks c.sent_packets ack_ranges >>= process_acks c

unfoldable pub process_packet : Codec → RenetClient → Payload → Outcome RenetClient
process_packet codec c payload =
    if is_disconnected c then returns c else elim (codec.decode payload) [
      | err e ↦ returns (disconnect_with_reason c (packet_deserialization e))
      | ok p ↦
          process_parsed (record c { pending_acks = add_pending_ack c.pending_acks (sequence p) }) p
    ]

unfoldable pub receive_message : RenetClient → ℕ → Outcome (RenetClient × Option Bytes)
receive_message c channel_id =
    if is_disconnected c
    then returns (c, none)
    else elim (get c.receive_reliable_channels channel_id) [
      | some channel ↦
          let (channel', message) = Reliable.Receive.receive_message channel in
          returns (
            record c {
              receive_reliable_channels = insert c.receive_reliable_channels channel_id channel';
            },
            message,
          )
      | none ↦ elim (get c.receive_unreliable_channels channel_id) [
        | some channel ↦
            let (channel', message) = Unreliable.Receive.receive_message channel in
            returns (
              record c {
                receive_unreliable_channels =
                    insert c.receive_unreliable_channels channel_id channel';
              },
              message,
            )
        | none ↦ panics
      ]
    ]
