-- ===== src/Connection/Delivery/Grow.antt =====
-- Genuine packets and receivers when another message is sent.
use renet.Base.{ℕ, ◌≡◌, some, List, [], ◌∷◌, ◌++◌, get_elem?, All-imp}
use renet.Base.Map.Entries.{Entries-imp}
use renet.Packet.{
  Bytes, Packet, small_reliable, small_unreliable, unreliable_slice, reliable_slice, ack,
}
use renet.Channel.Slices.{SliceConstructor}
use renet.Channel.Reliable.Send.Loop.{IsMessage, Genuine}
use renet.Channel.Reliable.Send.Accounts.{known-append}
use renet.Channel.Reliable.Receive.{ReceiveChannelReliable}
use renet.Channel.Reliable.Receive.Slicing.{IsAssembling, ReceiverInv}

module _ (sent : List Bytes) (m : Bytes) where
  pub Genuine-append : (p : Packet) → Genuine sent p → Genuine (sent ++ (m ∷ [])) p
  Genuine-append (small_reliable s c ms) g =
      All-imp (IsMessage sent) (IsMessage (sent ++ (m ∷ []))) ms
        (λ (id, x) k. (known-append sent m id x k.0, k.1)) g
  Genuine-append (reliable_slice s c slice) g = record {
    message = g.message;
    known = known-append sent m slice.message_id g.message g.known;
    long = g.long;
    cut = g.cut;
    index = g.index;
    payload = g.payload;
  }
  Genuine-append (small_unreliable s c ms) g = tt
  Genuine-append (unreliable_slice s c slice) g = tt
  Genuine-append (ack s rs) g = tt

  IsAssembling-append :
      (id : ℕ) (c : SliceConstructor)
      → IsAssembling sent id c
      → IsAssembling (sent ++ (m ∷ [])) id c
  IsAssembling-append id c a = record {
    message = a.message;
    known = known-append sent m id a.message a.known;
    cut = a.cut;
    assembles = a.assembles;
    open_ = a.open_;
  }

  pub ReceiverInv-append :
      (ch : ReceiveChannelReliable) → ReceiverInv sent ch → ReceiverInv (sent ++ (m ∷ [])) ch
  ReceiverInv-append ch v = record {
    holds = record {
      known =
          Entries-imp (λ id x. get_elem? sent id ≡ some x)
            (λ id x. get_elem? (sent ++ (m ∷ [])) id ≡ some x) ch.messages (known-append sent m)
            v.holds.known;
      ascending = v.holds.ascending;
      tracked = v.holds.tracked;
      accounts = v.holds.accounts;
      limit = v.holds.limit;
      room = v.holds.room;
    };
    slices =
        Entries-imp (IsAssembling sent) (IsAssembling (sent ++ (m ∷ []))) ch.slices
          IsAssembling-append v.slices;
    ascending = v.ascending;
  }
