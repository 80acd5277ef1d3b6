-- ===== src/Channel/Unreliable/Receive/Runs.antt =====
-- Sequences of calls of an unreliable receiver of renet/src/channel/unreliable.rs, and the slices that
-- it discards.
use renet.Base.{
  ℕ, ◌+◌, ◌-◌, ◌≤◌, ◌<◌, ◌≡◌, refl, sym, ap, ◌∙◌, subst, true, false, none, List, [], ◌∷◌, ◌++◌,
  ==_refl, ltb, leb, if◌then◌else◌, map, arith, inl, inr, Bool-cases,
}
use renet.Base.Word.{sub_u64, mul_u64}
use renet.Base.Map.{Map, get, remove, contains_key, get-remove}
use renet.Base.Map.Order.{Above, remove-Above}
use renet.Base.Map.Entries.{Entries}
use renet.Base.Outcome.{returns, unwrap, Returns, Returns-bind, Result}
use renet.Error.{ChannelError}
use renet.Packet.{Bytes, Slice}
use renet.Channel.Slices.{SliceConstructor}
use renet.Channel.Unreliable.Receive
use renet.Channel.Unreliable.Receive.{
  ReceiveChannelUnreliable, discard_after, process_message, process_slice, lost_messages,
  discard_messages, discard_incomplete_old_slices, receive_message,
}
use renet.Channel.Unreliable.Receive.Discard.{contained}
use renet.Channel.Unreliable.Receive.Pairing.{
  Pairs, PairsIn, Pairs-later, Pairs-remove, process_message-PairsIn, receive_message-PairsIn,
  process_slice-PairsIn,
}

-- The first entry has a time of less than three seconds ago.
abbrev FirstIsYoung : ℕ → Map ℕ → Type 0
FirstIsYoung now [] = Unit {0}
FirstIsYoung now ((id, t) ∷ times) = now < t + 3000000000

-- The incomplete messages up to the first that had a slice in the last three seconds are dropped, in
-- the order of their ids; all others, and the complete messages, are left.
pub record Drops (now : ℕ) (ch ch' : ReceiveChannelUnreliable) : Type 0 where
  pub dropped : Map ℕ
  pub split : ch.slices_last_received ≡ dropped ++ ch'.slices_last_received
  pub old : Entries (λ id t. t + 3000000000 ≤ now) dropped
  pub young : FirstIsYoung now ch'.slices_last_received
  pub slices :
      (id : ℕ) → get ch'.slices id ≡ (if contains_key dropped id then none else get ch.slices id)
  pub messages : ch'.messages ≡ ch.messages

abbrev keys : Map ℕ → List ℕ
keys m = map (λ e. e.0) m

record Splits (now : ℕ) (times : Map ℕ) (ids : List ℕ) : Type 0 where
  dropped : Map ℕ
  rest : Map ℕ
  split : times ≡ dropped ++ rest
  ids_are : ids ≡ keys dropped
  old : Entries (λ id t. t + 3000000000 ≤ now) dropped
  young : FirstIsYoung now rest

lost_messages-Splits :
    (now : ℕ) (slices : Map SliceConstructor) (times : Map ℕ)
    → Entries (λ id t. (t ≤ now) × (contains_key slices id ≡ true)) times
    → Returns (Splits now times) (lost_messages times now)
unfolding lost_messages
lost_messages-Splits now slices [] e = (
  [],
  refl,
  record { dropped = []; rest = []; split = refl; ids_are = refl; old = tt; young = tt },
)
lost_messages-Splits now slices ((id, t) ∷ times) e =
    let (ids, q, s) = lost_messages-Splits now slices times e.1 in
    let late : ltb now t ≡ false = ground (arith, e.0.0) in
    elim (Bool-cases (leb discard_after (now - t))) [
      | inl over ↦
          rw (late, over, q)
            (
              id ∷ ids,
              refl,
              record {
                dropped = (id, t) ∷ s.dropped;
                rest = s.rest;
                split = ap (λ l. (id, t) ∷ l) s.split;
                ids_are = ap (λ l. id ∷ l) s.ids_are;
                old = (ground (arith, over, e.0.0), s.old);
                young = s.young;
              },
            )
      | inr fresh ↦
          rw (late, fresh)
            (
              [],
              refl,
              record {
                dropped = [];
                rest = (id, t) ∷ times;
                split = refl;
                ids_are = refl;
                old = tt;
                young = ground (arith, fresh, e.0.0);
              },
            )
    ]

-- What is left when the messages of these times are dropped.
record Left (now : ℕ) (dropped rest : Map ℕ) (ch ch' : ReceiveChannelUnreliable) : Type 0 where
  pairs : PairsIn now ch'
  times : ch'.slices_last_received ≡ rest
  slices :
      (id : ℕ) → get ch'.slices id ≡ (if contains_key dropped id then none else get ch.slices id)
  messages : ch'.messages ≡ ch.messages

without_first : (id t : ℕ) (times : Map ℕ) → Above id times → remove ((id, t) ∷ times) id ≡ times
unfolding remove
without_first id t times a = rw (==_refl id) (remove-Above id times id a (omega arith))

discard_messages-Left :
    (now : ℕ) (dropped rest : Map ℕ) (ch : ReceiveChannelUnreliable)
    → ch.slices_last_received ≡ dropped ++ rest
    → PairsIn now ch
    → Returns (Left now dropped rest ch) (discard_messages ch (keys dropped))
unfolding discard_messages contains_key
discard_messages-Left now [] rest ch e v =
    (ch, refl, record { pairs = v; times = e; slices = λ id. refl; messages = refl })
discard_messages-Left now ((id, t) ∷ dropped) rest ch e v =
    let w = subst (Pairs now ch.slices) e v in
    let (c, there) = contained ch.slices id w.paired.0.1 in
    let next : ReceiveChannelUnreliable = record ch {
      slices_last_received = remove ch.slices_last_received id;
      slices = remove ch.slices id;
      memory_usage_bytes = sub_u64 ch.memory_usage_bytes (mul_u64 c.num_slices 1200);
    } in
    let (ch', q, l) =
      discard_messages-Left now dropped rest next
        (ap (λ m. remove m id) e ∙ without_first id t (dropped ++ rest) w.ascending.0)
        (Pairs-remove now id ch.slices ch.slices_last_received v) in
    rw (there, unwrap)
      (
        ch',
        q,
        record {
          pairs = l.pairs;
          times = l.times;
          slices = λ j. l.slices j ∙ ground (arith, get-remove ch.slices id j);
          messages = l.messages;
        },
      )

discard-Left :
    (now : ℕ) (ch : ReceiveChannelUnreliable)
    → PairsIn now ch
    → Returns (λ ch'. PairsIn now ch' × Drops now ch ch') (discard_incomplete_old_slices ch now)
unfolding discard_incomplete_old_slices
discard-Left now ch v =
    Returns-bind (Splits now ch.slices_last_received) (λ ch'. PairsIn now ch' × Drops now ch ch')
      (lost_messages ch.slices_last_received now) (discard_messages ch)
      (lost_messages-Splits now ch.slices ch.slices_last_received v.paired)
      (λ ids s.
        let (ch', q, l) = discard_messages-Left now s.dropped s.rest ch s.split v in
        (
          ch',
          ap (discard_messages ch) s.ids_are ∙ q,
          (
            l.pairs,
            record {
              dropped = s.dropped;
              split = s.split ∙ ap (λ r. s.dropped ++ r) (sym l.times);
              old = s.old;
              young = subst (FirstIsYoung now) (sym l.times) s.young;
              slices = l.slices;
              messages = l.messages;
            },
          ),
        ))

-- A run of a new receiver: any messages and slices arrive, time passes, old slices are discarded, and
-- the application takes messages. The number is the time of the run, which does not go back.
pub data UnreliableRun (channel_id max : ℕ) : ℕ → ReceiveChannelUnreliable → Type 0 where
  fresh_receiver : UnreliableRun channel_id max 0 (Receive.new channel_id max)
  time_passes :
      {now : ℕ} {ch : ReceiveChannelUnreliable} (now' : ℕ)
      → now ≤ now'
      → UnreliableRun channel_id max now ch
      → UnreliableRun channel_id max now' ch
  message_comes :
      {now : ℕ} {ch : ReceiveChannelUnreliable} (m : Bytes)
      → UnreliableRun channel_id max now ch
      → UnreliableRun channel_id max now (process_message ch m)
  slice_comes :
      {now : ℕ} {ch : ReceiveChannelUnreliable} (slice : Slice)
      (r : ReceiveChannelUnreliable × Result (Unit {0}) ChannelError)
      → UnreliableRun channel_id max now ch
      → process_slice ch slice now ≡ returns r
      → UnreliableRun channel_id max now r.0
  slices_discarded :
      {now : ℕ} {ch : ReceiveChannelUnreliable} (ch' : ReceiveChannelUnreliable)
      → UnreliableRun channel_id max now ch
      → discard_incomplete_old_slices ch now ≡ returns ch'
      → UnreliableRun channel_id max now ch'
  message_taken :
      {now : ℕ} {ch : ReceiveChannelUnreliable}
      → UnreliableRun channel_id max now ch
      → UnreliableRun channel_id max now (receive_message ch).0

run-PairsIn :
    (channel_id max now : ℕ) (ch : ReceiveChannelUnreliable)
    → UnreliableRun channel_id max now ch
    → PairsIn now ch
unfolding Receive.new
run-PairsIn i max _ _ fresh_receiver = record { ascending = tt; paired = tt }
run-PairsIn i max _ ch (time_passes {now} now' h r) =
    Pairs-later now now' ch.slices ch.slices_last_received h (run-PairsIn i max now ch r)
run-PairsIn i max now _ (message_comes {ch = ch} m r) =
    process_message-PairsIn now ch m (run-PairsIn i max now ch r)
run-PairsIn i max now _ (slice_comes {ch = ch} slice x r e) =
    process_slice-PairsIn now ch slice x (run-PairsIn i max now ch r) e
run-PairsIn i max now _ (slices_discarded {ch = ch} ch' r e) =
    let (x, q, (v, _)) = discard-Left now ch (run-PairsIn i max now ch r) in
    let same : x ≡ ch' = cc (q, e) in subst (PairsIn now) same v
run-PairsIn i max now _ (message_taken {ch = ch} r) =
    receive_message-PairsIn now ch (run-PairsIn i max now ch r)

-- In every run of an unreliable receiver, whatever messages and slices arrive,
-- `discard_incomplete_old_slices` does not panic: its `expect` finds the slices. By ascending ids, it
-- drops the incomplete messages whose last slice came three seconds ago or before, up to the first
-- one that is younger, and leaves the rest and the complete messages.
pub run-Drops :
    (channel_id max now : ℕ) (ch : ReceiveChannelUnreliable)
    → UnreliableRun channel_id max now ch
    → Returns (Drops now ch) (discard_incomplete_old_slices ch now)
run-Drops i max now ch r =
    let (ch', q, (_, d)) = discard-Left now ch (run-PairsIn i max now ch r) in (ch', q, d)
