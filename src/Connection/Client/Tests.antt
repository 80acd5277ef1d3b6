-- ===== src/Connection/Client/Tests.antt =====
-- A client with two packets in flight, and the theorems at it.
use renet.Base.{ℕ, ◌≡◌, refl, List, [], ◌∷◌, arith}
use renet.Base.Word.{add_u64, sub_u64}
use renet.Base.Map.{Map, get, remove}
use renet.Base.Outcome.{Returns, WhenReturns}
use renet.Error.{transport, disconnected_by_server}
use renet.Packet.{Range, sequence}
use renet.Packet.Wire.Layout.{octets, octets-HasBounds}
use renet.Packet.Format.{from_bytes, get_packet, get_arm, get_ack, get_acks, get_ranges}
use renet.Packet.Codec.{Codec, packet_codec}
use renet.Connection.Acks.{add_pending_ack, place, merge_next, acked_largest, limit}
use renet.Connection.Process.{no_info, ack_info}
use renet.Connection.Client.{
  RenetConnectionStatus, connected, disconnected, RenetClient, PacketSent, is_disconnected,
  disconnect_reason,
}
use renet.Connection.Client.Receiving.{
  process_packet, process_parsed, new_acks, keys_in, process_acks, process_ack, acked_info,
}
use renet.Connection.Client.Ticks.{discard_slices, update}
use renet.Connection.Client.Ticks.Lost.{kept, update-Finds}
use renet.Connection.Client.Pending.{PendingInv, process_packet-PendingInv}
use renet.Connection.Client.Status.{
  IsOver, run, sends, arrives, ticks, flushes, ends, connects, receives, run-IsOver,
}

abbrev codec : Codec
codec = packet_codec octets

abbrev client : RenetConnectionStatus → Map PacketSent → List Range → RenetClient
client status sent_packets pending_acks = record {
  packet_sequence = 9;
  current_time = 4000000000;
  sent_packets = sent_packets;
  pending_acks = pending_acks;
  channel_send_order = [];
  send_unreliable_channels = [];
  receive_unreliable_channels = [];
  send_reliable_channels = [];
  receive_reliable_channels = [];
  available_bytes_per_tick = 60000;
  connection_status = status;
}

abbrev in_flight : Map PacketSent
in_flight =
    (7, record { sent_at = 1000000000; info = no_info })
    ∷ (8, record { sent_at = 3000000000; info = ack_info 4 })
    ∷ []

abbrev pending : List Range
pending = record { start = 2; end = 6 } ∷ record { start = 11; end = 12 } ∷ []

process_packet-PendingInv_example : PendingInv (
    client connected
      ((7, record { sent_at = 1000000000; info = no_info }) ∷ [])
      (record { start = 5; end = 7 } ∷ record { start = 11; end = 12 } ∷ []))
unfolding from_bytes get_packet get_arm get_ack get_acks get_ranges sub_u64 process_packet
    is_disconnected process_parsed new_acks keys_in process_acks process_ack acked_info get remove
    add_pending_ack place merge_next limit acked_largest sequence add_u64
process_packet-PendingInv_example =
    process_packet-PendingInv octets (client connected in_flight pending) _ (4 ∷ 6 ∷ 8 ∷ 0 ∷ 0 ∷ [])
      octets-HasBounds (record { pending = omega arith; bounded = (tt, (omega arith, tt)) }) refl

update-Finds_example :
    Returns
      (λ c'.
        ((k : ℕ) → get c'.sent_packets k ≡ kept 4500000000 (get in_flight k))
        × (c' ≡ record (client connected in_flight pending) {
          current_time = 4500000000;
          receive_unreliable_channels = [];
          sent_packets = c'.sent_packets;
        }))
      (update (client connected in_flight pending) 500000000)
unfolding discard_slices
update-Finds_example =
    update-Finds (client connected in_flight pending) 500000000 0 [] (omega arith)
      (omega arith, (omega arith, tt)) (omega arith, (omega arith, tt)) refl

run-IsOver_example : WhenReturns (IsOver transport) (
    run
      (λ n. 1)
      codec
      (client (disconnected transport) in_flight pending)
      (sends 1 (4 ∷ [])
        ∷ arrives (6 ∷ 8 ∷ 9 ∷ [])
        ∷ ticks 500000000
        ∷ flushes
        ∷ ends disconnected_by_server
        ∷ connects
        ∷ receives 1
        ∷ []))
unfolding disconnect_reason
run-IsOver_example =
    run-IsOver (λ n. 1) codec (client (disconnected transport) in_flight pending) transport
      (sends 1 (4 ∷ [])
        ∷ arrives (6 ∷ 8 ∷ 9 ∷ [])
        ∷ ticks 500000000
        ∷ flushes
        ∷ ends disconnected_by_server
        ∷ connects
        ∷ receives 1
        ∷ [])
      refl
