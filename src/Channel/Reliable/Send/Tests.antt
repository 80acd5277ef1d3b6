-- ===== src/Channel/Reliable/Send/Tests.antt =====
-- A small message and one of three slices, and the theorems at them.
use renet.Base.{
  ℕ, ◌≡◌, refl, none, some, List, [], ◌∷◌, arith, length, length-replicate, replicate, false,
}
use renet.Base.Map.{get}
use renet.Base.Outcome.{Returns}
use renet.Packet.{Bytes}
use renet.Channel.Reliable.Send.{
  SlicedMessage, small, sliced, SendChannelReliable, send_message, process_message_ack,
  process_slice_message_ack,
}
use renet.Channel.Reliable.Send.Accounts.{SenderInv, Accepts, send_message-Accepts}
use renet.Channel.Reliable.Send.Acks.{
  process_message_ack-Returns, process_slice_message_ack-Returns, AcksSlice,
}

abbrev hello : Bytes
hello = 7 ∷ 8 ∷ 9 ∷ []

abbrev long : Bytes
long = replicate 2500 7

length-long : length long ≡ 2500
length-long = length-replicate {A = ℕ} 2500 7

-- The small message and the second of the three slices were sent at time 5; nothing is acked.
abbrev slices : SlicedMessage
slices = record {
  message = long;
  num_slices = 3;
  num_acked_slices = 0;
  next_slice_to_send = 0;
  acked = false ∷ false ∷ false ∷ [];
  last_sent = none ∷ some 5 ∷ none ∷ [];
}

abbrev channel : SendChannelReliable
channel = record {
  channel_id = 2;
  unacked_messages = (0, small hello (some 5)) ∷ (1, sliced slices) ∷ [];
  next_reliable_message_id = 2;
  resend_time = 100;
  max_memory_usage_bytes = 5000;
  memory_usage_bytes = 2503;
}

abbrev sent : List Bytes
sent = hello ∷ long ∷ []

channel-SenderInv : SenderInv sent 10 channel
channel-SenderInv = record {
  next = refl;
  words = omega arith;
  entries = (
    (refl, omega arith, omega arith),
    (
      record {
        known = refl;
        long = omega (arith, length-long);
        cut = omega (arith, length-long);
        flags = refl;
        counted = refl;
        open_ = omega arith;
        times = refl;
        past = (tt, (omega arith, (tt, tt)));
      },
      tt,
    ),
  );
  ascending = ((omega arith, tt), (tt, tt));
  accounts = omega (arith, length-long);
  limit = omega arith;
  room = omega arith;
}

send_message-Accepts_example : Accepts sent 10 hello channel (send_message channel hello)
send_message-Accepts_example =
    send_message-Accepts sent 10 hello channel channel-SenderInv (omega arith) (omega arith)

process_message_ack-Returns_example :
    Returns
      (λ ch'. SenderInv sent 10 ch' × (get ch'.unacked_messages 0 ≡ none))
      (process_message_ack channel 0)
process_message_ack-Returns_example =
    process_message_ack-Returns sent 10 channel channel-SenderInv 0 hello refl (omega arith)

process_slice_message_ack-Returns_example :
    Returns
      (λ ch'. SenderInv sent 10 ch' × AcksSlice channel 1 2 ch')
      (process_slice_message_ack channel 1 2)
process_slice_message_ack-Returns_example =
    process_slice_message_ack-Returns sent 10 channel channel-SenderInv 1 2 3 long refl
      (omega (arith, length-long)) (omega (arith, length-long)) (omega arith)
