-- ===== src/Channel/Reliable/Receive/Once.antt =====
-- The ids of the messages that an unordered channel of renet/src/channel/reliable.rs has given.
use renet.Base.{ℕ, ◌≡◌, false, List, [], ◌∷◌}
use renet.Base.Map.{Map}
use renet.Base.Outcome.{returns, Result}
use renet.Error.{ChannelError}
use renet.Packet.{Bytes, Slice}
use renet.Channel.Reliable.Receive
use renet.Channel.Reliable.Receive.{
  ReliableOrder, ordered, unordered, ReceiveChannelReliable, insert_message, process_in_order,
  process_message, slice_done, slice_into, process_slice, advance_oldest, receive_unordered,
  receive_message,
}
use renet.Channel.Reliable.Receive.Remembers.{
  Distinct, Once, OnceInv, process_message-OnceInv, process_slice-OnceInv,
}
use renet.Channel.Reliable.Receive.Gives.{HasRoom, receive_message-OnceInv}

-- A run of an unordered channel on any messages and slices, and the ids of the messages that it has
-- given to the application, the last of them first. The ids stay within 64 bits.
pub data UnorderedRun (max : ℕ) : List ℕ → ReceiveChannelReliable → Type 0 where
  fresh_channel : UnorderedRun max [] (Receive.new max false)
  message_arrived :
      {ids : List ℕ} {ch : ReceiveChannelReliable} (m : Bytes) (id : ℕ)
      → UnorderedRun max ids ch
      → UnorderedRun max ids (process_message ch m id).0
  slice_arrived :
      {ids : List ℕ} {ch : ReceiveChannelReliable} (slice : Slice)
      (r : ReceiveChannelReliable × Result (Unit {0}) ChannelError)
      → UnorderedRun max ids ch
      → process_slice ch slice ≡ returns r
      → UnorderedRun max ids r.0
  message_given :
      {ids : List ℕ} {ch : ReceiveChannelReliable} (id : ℕ) (m : Bytes) (rest : Map Bytes)
      → UnorderedRun max ids ch
      → ch.messages ≡ (id, m) ∷ rest
      → HasRoom ch.reliable_order ch.oldest_pending_message_id
      → UnorderedRun max (id ∷ ids) (receive_message ch).0

run-OnceInv :
    (max : ℕ) (ids : List ℕ) (ch : ReceiveChannelReliable)
    → UnorderedRun max ids ch
    → OnceInv ids ch
unfolding Receive.new
run-OnceInv max _ _ fresh_channel = record {
  ascending = tt;
  tracked = tt;
  gone = tt;
  distinct = tt;
}
run-OnceInv max ids _ (message_arrived {ch = ch} m id r) =
    process_message-OnceInv ids ch m id (run-OnceInv max ids ch r)
run-OnceInv max ids _ (slice_arrived {ch = ch} slice r s e) =
    process_slice-OnceInv ids ch slice r (run-OnceInv max ids ch s) e
run-OnceInv max _ _ (message_given {ids = ids} {ch = ch} id m rest s e b) =
    receive_message-OnceInv ids ch id m rest e b (run-OnceInv max ids ch s)

Once-Distinct :
    (ids : List ℕ) (messages : Map Bytes) (o : ReliableOrder) (oldest : ℕ)
    → Once ids messages o oldest
    → Distinct ids
Once-Distinct ids messages ordered oldest v = absurd v
Once-Distinct ids messages (unordered recent received) oldest v = v.distinct

-- In every run of an unordered channel, whatever messages and slices arrive and however often, the
-- ids of the messages that the application is given are all different.
pub gives_no_message_twice :
    (max : ℕ) (ids : List ℕ) (ch : ReceiveChannelReliable) → UnorderedRun max ids ch → Distinct ids
gives_no_message_twice max ids ch r =
    Once-Distinct ids ch.messages ch.reliable_order ch.oldest_pending_message_id
      (run-OnceInv max ids ch r)
