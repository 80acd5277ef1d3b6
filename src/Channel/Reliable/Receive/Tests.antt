-- ===== src/Channel/Reliable/Receive/Tests.antt =====
-- The theorems on a reliable receiver at small channels.
use renet.Base.{false, refl, List, [], ◌∷◌, arith}
use renet.Base.Map.{Map, insert, remove, contains_key}
use renet.Packet.{Bytes}
use renet.Base.Word.{add_u64}
use renet.Channel.Reliable.Receive
use renet.Channel.Reliable.Receive.Remembers.{Distinct}
use renet.Channel.Reliable.Receive.Once.{
  UnorderedRun, fresh_channel, message_arrived, message_given, gives_no_message_twice,
}
use renet.Channel.Reliable.Receive.{
  process_message, process_in_order, insert_message, receive_unordered, ordered,
  ReceiveChannelReliable, receive_message, advance_oldest,
}
use renet.Channel.Reliable.Receive.Slicing.{ReceiverInv}
use renet.Channel.Reliable.Receive.Take.{Takes, receive_message-Takes}
use renet.Channel.Reliable.Receive.Order.{Advanced, advance_oldest-Advanced}

abbrev received : Map (Unit {0})
received = (4, tt) ∷ (5, tt) ∷ (7, tt) ∷ []

advance_oldest-Advanced_example : Advanced received 4 (advance_oldest 3 received 4)
advance_oldest-Advanced_example = advance_oldest-Advanced 3 received 4 (omega arith) (omega arith)

abbrev sent : List Bytes
sent = (1 ∷ []) ∷ (2 ∷ 3 ∷ []) ∷ []

abbrev channel : ReceiveChannelReliable
channel = record {
  slices = [];
  messages = (1, 2 ∷ 3 ∷ []) ∷ [];
  oldest_pending_message_id = 1;
  reliable_order = ordered;
  memory_usage_bytes = 2;
  max_memory_usage_bytes = 100;
}

channel-ReceiverInv : ReceiverInv sent channel
channel-ReceiverInv = record {
  holds = record {
    known = (refl, tt);
    ascending = (tt, tt);
    tracked = tt;
    accounts = refl;
    limit = omega arith;
    room = omega arith;
  };
  slices = tt;
  ascending = tt;
}

receive_message-Takes_example : Takes sent channel (receive_message channel)
receive_message-Takes_example =
    receive_message-Takes sent channel channel-ReceiverInv refl (omega arith)

-- Message 1 arrives before message 0 and twice; both are given; message 0 arrives once more.
abbrev both_there : ReceiveChannelReliable
both_there =
    (process_message
      (process_message (process_message (Receive.new 100 false) (8 ∷ []) 1).0 (8 ∷ []) 1).0 (7 ∷ [])
      0).0

abbrev one_left : ReceiveChannelReliable
one_left = (receive_message both_there).0

abbrev none_left : ReceiveChannelReliable
none_left = (process_message (receive_message one_left).0 (7 ∷ []) 0).0

none_left_run : UnorderedRun 100 (1 ∷ 0 ∷ []) none_left
unfolding Receive.new process_message process_in_order insert_message contains_key insert add_u64
    receive_message receive_unordered advance_oldest remove
none_left_run = message_arrived (7 ∷ []) 0 (
    message_given 1 (8 ∷ []) []
      (message_given 0 (7 ∷ []) ((1, 8 ∷ []) ∷ [])
        (message_arrived (7 ∷ []) 0
          (message_arrived (8 ∷ []) 1 (message_arrived (8 ∷ []) 1 fresh_channel)))
        refl (omega arith))
      refl (omega arith))

gives_no_message_twice_example : Distinct (1 ∷ 0 ∷ [])
gives_no_message_twice_example = gives_no_message_twice 100 (1 ∷ 0 ∷ []) none_left none_left_run
