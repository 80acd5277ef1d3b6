-- ===== src/Connection/Client/Sending.antt =====
-- `send_message` and `get_packets_to_send` of `RenetClient`.
use renet.Base.{ℕ, none, some, List, [], ◌∷◌, ◌++◌, if◌then◌else◌}
use renet.Base.Word.{add_u64}
use renet.Base.Map.{Map, get, insert}
use renet.Base.Outcome.{Outcome, returns, panics, unwrap, ◌>>=◌, Result, ok, err}
use renet.Error.{send_channel_error, packet_serialization, SerializationError}
use renet.Packet.{Bytes, Payload, Packet, ack, sequence}
use renet.Packet.Codec.{Codec}
use renet.Channel.Reliable
use renet.Channel.Reliable.Send.{SendChannelReliable, Sent}
use renet.Channel.Unreliable
use renet.Channel.Unreliable.Send.{SendChannelUnreliable}
use renet.Connection.Process.{sent_info}
use renet.Connection.Client.{
  PacketSent, ChannelOrder, reliable_order, unreliable_order, RenetClient, is_disconnected,
  disconnect_with_reason,
}

-- A message over a reliable channel: the channel's error closes the connection.
unfoldable pub send_reliable : RenetClient → ℕ → SendChannelReliable → Bytes → RenetClient
send_reliable c channel_id channel message =
    let (channel', r) = Reliable.Send.send_message channel message in
    let c' : RenetClient = record c {
      send_reliable_channels = insert c.send_reliable_channels channel_id channel';
    } in
    elim r [ ok _ ↦ c' | err e ↦ disconnect_with_reason c' (send_channel_error channel_id e) ]

unfoldable pub send_message : RenetClient → ℕ → Bytes → Outcome RenetClient
send_message c channel_id message =
    if is_disconnected c then returns c else elim (get c.send_reliable_channels channel_id) [
      | some channel ↦ returns (send_reliable c channel_id channel message)
      | none ↦ elim (get c.send_unreliable_channels channel_id) [
        | some channel ↦ returns (record c {
          send_unreliable_channels =
              insert c.send_unreliable_channels channel_id
                (Unreliable.Send.send_message channel message);
        })
        | none ↦ panics
      ]
    ]

-- The variables of `get_packets_to_send`.
pub record Gathering : Type 0 where
  pub client : RenetClient
  pub packets : List Packet
  pub available_bytes : ℕ

unfoldable pub gather_channel : (ℕ → ℕ) → Gathering → ChannelOrder → Outcome Gathering
gather_channel varint_len g (reliable_order channel_id) = do
  channel ← unwrap (get g.client.send_reliable_channels channel_id)
  out ←
      Reliable.Send.get_packets_to_send varint_len channel g.client.packet_sequence
        g.available_bytes g.client.current_time
  returns (record {
    client = record g.client {
      send_reliable_channels = insert g.client.send_reliable_channels channel_id out.channel;
      packet_sequence = out.packet_sequence;
    };
    packets = g.packets ++ out.packets;
    available_bytes = out.available_bytes;
  })
gather_channel varint_len g (unreliable_order channel_id) = do
  channel ← unwrap (get g.client.send_unreliable_channels channel_id)
  out ←
      Unreliable.Send.get_packets_to_send varint_len channel g.client.packet_sequence
        g.available_bytes
  returns (record {
    client = record g.client {
      send_unreliable_channels = insert g.client.send_unreliable_channels channel_id out.channel;
      packet_sequence = out.packet_sequence;
    };
    packets = g.packets ++ out.packets;
    available_bytes = out.available_bytes;
  })

unfoldable pub gather_channels : (ℕ → ℕ) → Gathering → List ChannelOrder → Outcome Gathering
gather_channels varint_len g [] = returns g
gather_channels varint_len g (order ∷ orders) =
    gather_channel varint_len g order >>= λ g'. gather_channels varint_len g' orders

-- The packet of the pending acks, unless there are none.
unfoldable pub gather_acks : Gathering → Gathering
gather_acks g = elim g.client.pending_acks [
  | [] ↦ g
  | _ ∷ _ ↦ record {
    client = record g.client { packet_sequence = add_u64 g.client.packet_sequence 1 };
    packets = g.packets ++ (ack g.client.packet_sequence g.client.pending_acks ∷ []);
    available_bytes = g.available_bytes;
  }
]

-- The loop that keeps the info of every packet.
unfoldable pub record_sent : ℕ → Map PacketSent → List Packet → Outcome (Map PacketSent)
record_sent sent_at sent_packets [] = returns sent_packets
record_sent sent_at sent_packets (p ∷ ps) = sent_info p >>= λ info.
    record_sent sent_at
      (insert sent_packets (sequence p) (record { sent_at = sent_at; info = info })) ps

-- The loop that serializes the packets, which the first error ends.
unfoldable pub serialize_all :
    Codec → List Packet → Outcome (Result (List Payload) SerializationError)
serialize_all codec [] = returns (ok [])
serialize_all codec (p ∷ ps) =
    let rest = serialize_all codec ps in
    codec.encode p >>= λ r. elim r [
      | err e ↦ returns (err e)
      | ok bytes ↦ rest >>= λ rs. elim rs [
        | err e ↦ returns (err e)
        | ok payloads ↦ returns (ok (bytes ∷ payloads))
      ]
    ]

unfoldable pub serialized :
    RenetClient → Result (List Payload) SerializationError → RenetClient × List Payload
serialized c (ok payloads) = (c, payloads)
serialized c (err e) = (disconnect_with_reason c (packet_serialization e), [])

unfoldable pub get_packets_to_send :
    (ℕ → ℕ) → Codec → RenetClient → Outcome (RenetClient × List Payload)
get_packets_to_send varint_len codec c =
    let start : Gathering = record {
      client = c;
      packets = [];
      available_bytes = c.available_bytes_per_tick;
    } in
    let gathered = (do
      g ← gather_channels varint_len start c.channel_send_order
      let g' = gather_acks g
      sent_packets ← record_sent c.current_time g'.client.sent_packets g'.packets
      payloads ← serialize_all codec g'.packets
      returns (serialized (record g'.client { sent_packets = sent_packets }) payloads)) in
    if is_disconnected c then returns (c, []) else gathered
