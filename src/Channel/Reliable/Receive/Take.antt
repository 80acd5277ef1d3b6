-- ===== src/Channel/Reliable/Receive/Take.antt =====
-- `receive_message` of an ordered channel of renet/src/channel/reliable.rs.
use renet.Base.{
  ℕ, ◌+◌, ◌^◌, ◌<◌, ◌≡◌, refl, sym, ap, true, inl, inr, Option, none, some, List, arith, length,
  get_elem?, Option-cases, subst, get_elem?-some-lt,
}
use renet.Base.Word.{add_u64, add_u64-eq, sub_u64-eq}
use renet.Base.Map.{get, remove}
use renet.Base.Map.Order.{remove-Ascending}
use renet.Base.Map.Sum.{total-remove}
use renet.Base.Map.Entries.{Entries-remove, Entries-get}
use renet.Packet.{Bytes}
use renet.Channel.Reliable.Receive.{
  ReliableOrder, ordered, unordered, ReceiveChannelReliable, receive_ordered, receive_unordered,
  receive_message,
}
use renet.Channel.Reliable.Receive
use renet.Channel.Reliable.Receive.Messages.{IsTracked}
use renet.Channel.Reliable.Receive.Slicing.{ReceiverInv}

-- What `receive_message` of an ordered channel does.
pub data Takes (sent : List Bytes) (ch : ReceiveChannelReliable)
    (r : ReceiveChannelReliable × Option Bytes) : Type 0 where
  nothing : get ch.messages ch.oldest_pending_message_id ≡ none → r ≡ (ch, none) → Takes sent ch r
  takes :
      (ch' : ReceiveChannelReliable) (m : Bytes)
      → r ≡ (ch', some m)
      → get ch.messages ch.oldest_pending_message_id ≡ some m
      → get_elem? sent ch.oldest_pending_message_id ≡ some m
      → ch'.messages ≡ remove ch.messages ch.oldest_pending_message_id
      → ch'.oldest_pending_message_id ≡ ch.oldest_pending_message_id + 1
      → ch'.reliable_order ≡ ordered
      → ReceiverInv sent ch'
      → Takes sent ch r

in_order-eq :
    (ch : ReceiveChannelReliable)
    → ch.reliable_order ≡ ordered
    → receive_message ch ≡ receive_ordered ch
unfolding receive_message
in_order-eq ch o =
    ap
      (λ z. elim z [
        | ordered ↦ receive_ordered ch
        | unordered a b ↦ receive_unordered ch a b ch.messages
      ])
      o

-- With less than 2^64 messages sent: an ordered channel's `receive_message` gives the message with
-- the oldest pending id whenever it has arrived, which is the one that was sent with this id. It is
-- taken out, the oldest pending id is one more, and the receiver's invariant stays. Nothing is given
-- and nothing changes when that message has not arrived.
pub receive_message-Takes :
    (sent : List Bytes) (ch : ReceiveChannelReliable)
    → ReceiverInv sent ch
    → ch.reliable_order ≡ ordered
    → length sent < 2 ^ 64
    → Takes sent ch (receive_message ch)
unfolding receive_ordered
receive_message-Takes sent ch v o b =
    subst (Takes sent ch) (sym (in_order-eq ch o))
      (elim (Option-cases (get ch.messages ch.oldest_pending_message_id)) [
        | inl e ↦ rw (e, receive_ordered) (nothing e refl)
        | inr (m, e) ↦
            let k =
              Entries-get (λ id x. get_elem? sent id ≡ some x) ch.messages
                ch.oldest_pending_message_id m v.holds.known e in
            let l = get_elem?-some-lt sent ch.oldest_pending_message_id m k in
            let t =
              total-remove length ch.messages ch.oldest_pending_message_id m v.holds.ascending e in
            let s =
              sub_u64-eq ch.memory_usage_bytes (length m) (omega (arith, v.holds.accounts, t))
                (omega (arith, v.holds.limit, v.holds.room)) in
            rw (e, receive_ordered)
              (takes _ m refl e k refl
                (add_u64-eq ch.oldest_pending_message_id 1 (omega (arith, l, b))) o
                (record {
                  holds = record {
                    known =
                        Entries-remove (λ id x. get_elem? sent id ≡ some x) ch.messages
                          ch.oldest_pending_message_id v.holds.known;
                    ascending =
                        remove-Ascending ch.messages ch.oldest_pending_message_id v.holds.ascending;
                    tracked =
                        subst
                          (IsTracked (remove ch.messages ch.oldest_pending_message_id)
                            (add_u64 ch.oldest_pending_message_id 1))
                          (sym o) tt;
                    accounts = omega (arith, s, t, v.holds.accounts);
                    limit = omega (arith, s, v.holds.limit);
                    room = v.holds.room;
                  };
                  slices = v.slices;
                  ascending = v.ascending;
                }))
      ])

-- A new ordered channel holds the invariant.
pub new-ReceiverInv :
    (sent : List Bytes) (max : ℕ) → max < 2 ^ 59 → ReceiverInv sent (Receive.new max true)
unfolding Receive.new
new-ReceiverInv sent max h = record {
  holds = record {
    known = tt;
    ascending = tt;
    tracked = tt;
    accounts = refl;
    limit = omega arith;
    room = h;
  };
  slices = tt;
  ascending = tt;
}
