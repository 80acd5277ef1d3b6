-- ===== src/Connection/Delivery/Tests.antt =====
-- A run in which the first transmission is lost and the second arrives twice.
use renet.Base.{ℕ, ◌≡◌, ◌⊎◌, true, refl, Option, none, some, [], ◌∷◌, arith, length, take, inl, inr}
use renet.Base.Word.{add_u64, sub_u64}
use renet.Base.Map.{get, insert, remove, contains_key}
use renet.Base.Outcome.{Returns, ok, err}
use renet.Error.{reliable_channel_max_memory_reached}
use renet.Packet.{Bytes, Packet, small_reliable}
use renet.Channel.Reliable.Send
use renet.Channel.Reliable.Send.{
  UnackedMessage, small, SendChannelReliable, Sent, send_message, sent_recently, flush,
  serialized_size, push_small, send_small, send_unacked, send_all, flush_rest, get_packets_to_send,
  process_message_ack,
}
use renet.Channel.Reliable.Send.Accounts.{SenderInv}
use renet.Channel.Reliable.Receive
use renet.Channel.Reliable.Receive.{
  ordered, ReceiveChannelReliable, insert_message, process_in_order, process_message,
  receive_ordered, receive_message,
}
use renet.Connection.Process.{
  process_messages, process_reliable, sent_info, reliable_messages, process_reliable_ack,
}
use renet.Connection.Delivery.{
  Peers, start, send, tick, transmit, arrive, receive, Steps, none_yet, then_step,
}
use renet.Connection.Delivery.Runs.{delivered_in_order, arrives_safely, acked_safely}

abbrev varint_len : ℕ → ℕ
varint_len n = 1

abbrev hello : Bytes
hello = 7 ∷ 8 ∷ 9 ∷ []

abbrev sending : Option ℕ → SendChannelReliable
sending last_sent = record {
  channel_id = 2;
  unacked_messages = (0, small hello last_sent) ∷ [];
  next_reliable_message_id = 1;
  resend_time = 100;
  max_memory_usage_bytes = 5000;
  memory_usage_bytes = 3;
}

abbrev receiving : ReceiveChannelReliable
receiving = record {
  slices = [];
  messages = (0, hello) ∷ [];
  oldest_pending_message_id = 0;
  reliable_order = ordered;
  memory_usage_bytes = 3;
  max_memory_usage_bytes = 5000;
}

abbrev received : ReceiveChannelReliable
received = record {
  slices = [];
  messages = [];
  oldest_pending_message_id = 1;
  reliable_order = ordered;
  memory_usage_bytes = 0;
  max_memory_usage_bytes = 5000;
}

abbrev packet : ℕ → Packet
packet s = small_reliable s 2 ((0, hello) ∷ [])

abbrev out : ℕ → ℕ → Sent SendChannelReliable
out s now = record {
  channel = sending (some now);
  packets = packet s ∷ [];
  packet_sequence = add_u64 s 1;
  available_bytes = 59997;
}

abbrev sent_once : Peers
sent_once = record {
  sender = sending (some 0);
  receiver = Receive.new 5000 true;
  sent = hello ∷ [];
  delivered = [];
  network = packet 0 ∷ [];
  now = 0;
}

abbrev sent_twice : Peers
sent_twice = record {
  sender = sending (some 200);
  receiver = Receive.new 5000 true;
  sent = hello ∷ [];
  delivered = [];
  network = packet 0 ∷ packet 1 ∷ [];
  now = 200;
}

abbrev delivered_once : Peers
delivered_once = record {
  sender = sending (some 200);
  receiver = received;
  sent = hello ∷ [];
  delivered = hello ∷ [];
  network = packet 0 ∷ packet 1 ∷ [];
  now = 200;
}

sent_twice_run : Steps varint_len (start 2 100 5000 5000) sent_twice
unfolding Send.new Receive.new send_message insert add_u64 sub_u64 get_packets_to_send send_all
    send_unacked send_small sent_recently push_small serialized_size flush_rest flush
sent_twice_run =
    then_step
      (then_step
        (then_step (then_step none_yet (send hello (sending none) (omega arith) (omega arith) refl))
          (transmit 0 60000 (out 0 0) (omega arith) (omega arith) refl))
        (tick 200))
      (transmit 1 60000 (out 1 200) (omega arith) (omega arith) refl)

delivered_run : Steps varint_len (start 2 100 5000 5000) delivered_once
unfolding Receive.new process_reliable process_messages process_message process_in_order
    insert_message contains_key insert receive_message receive_ordered get remove add_u64 sub_u64
delivered_run =
    then_step
      (then_step (then_step sent_twice_run (arrive (packet 1) receiving (inr (inl refl)) refl))
        (receive hello received refl))
      (arrive (packet 1) received (inr (inl refl)) refl)

delivered_in_order_example :
    delivered_once.delivered ≡ take (length delivered_once.delivered) delivered_once.sent
delivered_in_order_example =
    delivered_in_order varint_len 2 100 5000 5000 delivered_once (omega arith) (omega arith)
      delivered_run

arrives_safely_example :
    Returns
      (λ r. (r.1 ≡ ok tt) ⊎ (r.1 ≡ err reliable_channel_max_memory_reached))
      (process_reliable received (packet 0))
arrives_safely_example =
    arrives_safely varint_len 2 100 5000 5000 delivered_once (packet 0) (omega arith) (omega arith)
      delivered_run (inl refl)

acked_safely_example :
    Returns
      (SenderInv (hello ∷ []) 200)
      (process_reliable_ack (sending (some 200)) (reliable_messages 2 (0 ∷ [])))
unfolding sent_info
acked_safely_example =
    acked_safely varint_len 2 100 5000 5000 delivered_once (packet 1) (reliable_messages 2 (0 ∷ []))
      (omega arith) (omega arith) delivered_run (inr (inl refl)) refl
