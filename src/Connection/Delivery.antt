-- ===== src/Connection/Delivery.antt =====
-- One reliable ordered channel of renet/src/remote_connection.rs between two peers, over a network
-- that loses, repeats and reorders packets.
pub mod Grow
pub mod Runs
mod Tests
use renet.Base.{ℕ, ◌+◌, ◌^◌, ◌≤◌, ◌<◌, ◌≡◌, true, Option, some, List, [], ◌∷◌, ◌++◌, ◌⊎◌, length}
use renet.Base.Word.{IsU64}
use renet.Base.Outcome.{Outcome, returns, Result, ok, err}
use renet.Packet.{Bytes, Packet}
use renet.Channel.Reliable.Send
use renet.Channel.Reliable.Send.{SendChannelReliable, Sent, send_message, get_packets_to_send}
use renet.Channel.Reliable.Receive
use renet.Channel.Reliable.Receive.{ReceiveChannelReliable, receive_message}
use renet.Connection.Process.{PacketSentInfo, process_reliable, sent_info, process_reliable_ack}

-- The two ends of the channel, the messages that were sent and those that were received, and every
-- packet that was ever put on the network.
pub record Peers : Type 0 where
  pub sender : SendChannelReliable
  pub receiver : ReceiveChannelReliable
  pub sent : List Bytes
  pub delivered : List Bytes
  pub network : List Packet
  pub now : ℕ

abbrev pub start : ℕ → ℕ → ℕ → ℕ → Peers
start channel_id resend_time send_max receive_max = record {
  sender = Send.new channel_id resend_time send_max;
  receiver = Receive.new receive_max true;
  sent = [];
  delivered = [];
  network = [];
  now = 0;
}

abbrev pub IsIn : Packet → List Packet → Type 0
IsIn p [] = ⊥
IsIn p (q ∷ ps) = (p ≡ q) ⊎ IsIn p ps

-- A step of either end. Any packet of the network may arrive, at any time and any number of times,
-- or never; so may the ack of any packet. A call whose result is an error has no step: the
-- connection is closed.
pub data Step (varint_len : ℕ → ℕ) (w : Peers) : Peers → Type 0 where
  send :
      (m : Bytes) (ch : SendChannelReliable)
      → length m < 2 ^ 58
      → length w.sent + 1 < 2 ^ 64
      → send_message w.sender m ≡ (ch, ok tt)
      → Step varint_len w (record w { sender = ch; sent = w.sent ++ (m ∷ []) })
  tick : (t : ℕ) → Step varint_len w (record w { now = w.now + t })
  transmit :
      (from budget : ℕ) (out : Sent SendChannelReliable)
      → IsU64 from
      → IsU64 budget
      → get_packets_to_send varint_len w.sender from budget w.now ≡ returns out
      → Step varint_len w (record w { sender = out.channel; network = w.network ++ out.packets })
  arrive :
      (p : Packet) (ch : ReceiveChannelReliable)
      → IsIn p w.network
      → process_reliable w.receiver p ≡ returns (ch, ok tt)
      → Step varint_len w (record w { receiver = ch })
  acked :
      (p : Packet) (info : PacketSentInfo) (ch : SendChannelReliable)
      → IsIn p w.network
      → sent_info p ≡ returns info
      → process_reliable_ack w.sender info ≡ returns ch
      → Step varint_len w (record w { sender = ch })
  receive :
      (m : Bytes) (ch : ReceiveChannelReliable)
      → receive_message w.receiver ≡ (ch, some m)
      → Step varint_len w (record w { receiver = ch; delivered = w.delivered ++ (m ∷ []) })

pub data Steps (varint_len : ℕ → ℕ) (w : Peers) : Peers → Type 0 where
  none_yet : Steps varint_len w w
  then_step : {v u : Peers} → Steps varint_len w v → Step varint_len v u → Steps varint_len w u
