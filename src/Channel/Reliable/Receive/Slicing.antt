-- ===== src/Channel/Reliable/Receive/Slicing.antt =====
-- `process_slice` of a reliable channel on slices of messages that were sent.
use renet.Base.{ℕ, ◌*◌, ◌^◌, ◌<◌, ◌≡◌, refl, sym, some, List, arith, length, get_elem?, subst}
use renet.Base.Flags.{trues}
use renet.Base.Map.Order.{Ascending}
use renet.Base.Map.Sum.{total}
use renet.Base.Map.Entries.{Entries}
use renet.Base.Outcome.{Result, ok, err}
use renet.Error.{ChannelError, reliable_channel_max_memory_reached}
use renet.Packet.{Bytes}
use renet.Channel.Pieces.{IsSliced}
use renet.Channel.Slices.{SliceConstructor}
use renet.Channel.Slices.Assemble.{Assembles}
use renet.Channel.Reliable.Receive.{
  ReliableOrder, ordered, unordered, ReceiveChannelReliable, insert_message, process_in_order,
  process_message,
}
use renet.Channel.Reliable.Receive.Messages.{MessagesInv, Kept, process_message-Kept}

abbrev pub slice_bytes : SliceConstructor → ℕ
slice_bytes c = c.num_slices * 1200

-- A constructor that still misses slices of a message that was sent.
pub record IsAssembling (sent : List Bytes) (id : ℕ) (c : SliceConstructor) : Type 0 where
  pub message : Bytes
  pub known : get_elem? sent id ≡ some message
  pub cut : IsSliced message c.num_slices
  pub assembles : Assembles message c.num_slices c
  pub open_ : trues c.received < c.num_slices

pub record ReceiverInv (sent : List Bytes) (ch : ReceiveChannelReliable) : Type 0 where
  pub holds : MessagesInv sent (total slice_bytes ch.slices) ch
  pub slices : Entries (IsAssembling sent) ch.slices
  pub ascending : Ascending ch.slices

-- The result of a call on genuine input: it keeps the invariant, or the memory is exhausted.
pub record Stays (sent : List Bytes) (ch ch' : ReceiveChannelReliable) : Type 0 where
  pub inv : ReceiverInv sent ch'
  pub oldest : ch'.oldest_pending_message_id ≡ ch.oldest_pending_message_id
  pub in_order : ch.reliable_order ≡ ordered → ch'.reliable_order ≡ ordered

abbrev pub Keeps :
    List Bytes
    → ReceiveChannelReliable
    → ReceiveChannelReliable × Result (Unit {0}) ChannelError
    → Type 0
Keeps sent ch (ch', ok _) = Stays sent ch ch'
Keeps sent ch (ch', err e) = e ≡ reliable_channel_max_memory_reached

pub process_message_err :
    (ch : ReceiveChannelReliable) (m : Bytes) (id : ℕ) (e : ChannelError)
    → (process_message ch m id).1 ≡ err e
    → e ≡ reliable_channel_max_memory_reached
unfolding process_message insert_message process_in_order
process_message_err ch m id e h = go ch.reliable_order refl
  where
    go : (o : ReliableOrder) → ch.reliable_order ≡ o → e ≡ reliable_channel_max_memory_reached
    go ordered q = ground arith
    go (unordered r s) q = ground arith

-- `process_message` on a message that was sent.
pub process_message-Keeps :
    (sent : List Bytes) (ch : ReceiveChannelReliable) (m : Bytes) (id : ℕ)
    → ReceiverInv sent ch
    → get_elem? sent id ≡ some m
    → length m < 2 ^ 59
    → Keeps sent ch (process_message ch m id)
process_message-Keeps sent ch m id v e b = go (process_message ch m id).1 refl
  where
    k : Kept sent (total slice_bytes ch.slices) ch (process_message ch m id).0
    k = process_message-Kept sent (total slice_bytes ch.slices) ch m id v.holds e b

    stays : Stays sent ch (process_message ch m id).0
    stays = record {
      inv = record {
        holds =
            subst (λ s. MessagesInv sent (total slice_bytes s) (process_message ch m id).0)
              (sym k.slices) k.inv;
        slices = subst (Entries (IsAssembling sent)) (sym k.slices) v.slices;
        ascending = subst Ascending (sym k.slices) v.ascending;
      };
      oldest = k.oldest;
      in_order = k.in_order;
    }

    go :
        (r : Result (Unit {0}) ChannelError)
        → (process_message ch m id).1 ≡ r
        → Keeps sent ch ((process_message ch m id).0, r)
    go (ok _) q = stays
    go (err x) q = process_message_err ch m id x q
