-- ===== src/Channel/Unreliable/Receive/Memory.antt =====
-- The memory accounts of an unreliable receiver, and the slices that it discards.
use renet.Base.{
  ℕ, ◌+◌, ◌-◌, ◌*◌, ◌^◌, ◌≤◌, ◌<◌, ◌≡◌, refl, ap, ◌∙◌, true, false, List, [], ◌∷◌, ◌++◌, ltb, leb,
  ◌==◌, ==_false, if◌then◌else◌, arith, inl, inr, Bool-cases, length, not_ltb→le,
}
use renet.Base.Word.{add_u64, add_u64-eq, sub_u64-eq}
use renet.Base.Map.{Map, remove, contains_key, contains_key-get, get-remove}
use renet.Base.Map.Order.{Above, Ascending}
use renet.Base.Map.Sum.{total}
use renet.Base.Map.Entries.{Entries}
use renet.Base.Outcome.{Returns}
use renet.Packet.{Bytes}
use renet.Channel.Slices.{SliceConstructor}
use renet.Channel.Unreliable.Receive.{
  ReceiveChannelUnreliable, new, process_message, receive_message, discard_after, lost_messages,
}

abbrev pub slice_bytes : SliceConstructor → ℕ
slice_bytes c = c.num_slices * 1200

abbrev pub total_length : List Bytes → ℕ
total_length [] = 0
total_length (m ∷ ms) = length m + total_length ms

pub record AccountsInv (now : ℕ) (ch : ReceiveChannelUnreliable) : Type 0 where
  pub ascending : Ascending ch.slices
  pub times_ascending : Ascending ch.slices_last_received
  pub paired :
      Entries (λ id t. (t ≤ now) × (contains_key ch.slices id ≡ true)) ch.slices_last_received
  pub accounts : ch.memory_usage_bytes ≡ total_length ch.messages + total slice_bytes ch.slices
  pub limit : ch.memory_usage_bytes ≤ ch.max_memory_usage_bytes
  pub room : ch.max_memory_usage_bytes < 2 ^ 59

pub new-AccountsInv : (id max : ℕ) → max < 2 ^ 59 → AccountsInv 0 (new id max)
unfolding new
new-AccountsInv id max h = record {
  ascending = tt;
  times_ascending = tt;
  paired = tt;
  accounts = refl;
  limit = omega arith;
  room = h;
}

total_length-append :
    (ms ns : List Bytes) → total_length (ms ++ ns) ≡ total_length ms + total_length ns
total_length-append [] ns = omega arith
total_length-append (m ∷ ms) ns = omega (arith, total_length-append ms ns)

-- A message that arrives is kept when there is memory for it, and dropped without a change when
-- there is not. The memory usage stays the sum of what the channel holds, within its limit.
pub process_message-AccountsInv :
    (now : ℕ) (ch : ReceiveChannelUnreliable) (m : Bytes)
    → length m < 2 ^ 59
    → AccountsInv now ch
    → AccountsInv now (process_message ch m)
      × ((process_message ch m).messages ≡ (
          if leb (ch.memory_usage_bytes + length m) ch.max_memory_usage_bytes
          then ch.messages ++ (m ∷ [])
          else ch.messages))
unfolding process_message
process_message-AccountsInv now ch m b v =
    let s = add_u64-eq ch.memory_usage_bytes (length m) (omega (arith, v.limit, v.room)) in
    elim (Bool-cases (ltb ch.max_memory_usage_bytes (add_u64 ch.memory_usage_bytes (length m)))) [
      | inl full ↦
          let no : leb (ch.memory_usage_bytes + length m) ch.max_memory_usage_bytes ≡ false =
            ground (arith, s) in
          rw (full, no) (v, refl)
      | inr fits ↦
          let yes_ : leb (ch.memory_usage_bytes + length m) ch.max_memory_usage_bytes ≡ true =
            ground (arith, s) in
          rw (fits, yes_)
            (
              record {
                ascending = v.ascending;
                times_ascending = v.times_ascending;
                paired = v.paired;
                accounts = omega (arith, s, v.accounts, total_length-append ch.messages (m ∷ []));
                limit =
                    not_ltb→le ch.max_memory_usage_bytes (add_u64 ch.memory_usage_bytes (length m))
                      fits;
                room = v.room;
              },
              refl,
            )
    ]

-- A message that the application takes frees its bytes.
pub receive_message-AccountsInv :
    (now : ℕ) (ch : ReceiveChannelUnreliable)
    → AccountsInv now ch
    → AccountsInv now (receive_message ch).0
unfolding receive_message
receive_message-AccountsInv now ch v = go ch.messages refl
  where
    go : (ms : List Bytes) → ch.messages ≡ ms → AccountsInv now (receive_message ch).0
    go [] e = rw (e, receive_message) v
    go (m ∷ ms) e =
        let t : total_length ch.messages ≡ length m + total_length ms = ap total_length e in
        let s =
          sub_u64-eq ch.memory_usage_bytes (length m) (omega (arith, v.accounts, t))
            (omega (arith, v.limit, v.room)) in
        rw (e, receive_message)
          (record {
            ascending = v.ascending;
            times_ascending = v.times_ascending;
            paired = v.paired;
            accounts = omega (arith, s, v.accounts, t);
            limit = omega (arith, s, v.limit);
            room = v.room;
          })

-- Ids from `n` on, in ascending order, of messages whose slices are there.
abbrev pub IdsFrom : ℕ → Map SliceConstructor → List ℕ → Type 0
IdsFrom n slices [] = Unit {0}
IdsFrom n slices (id ∷ ids) =
    (n ≤ id) × (contains_key slices id ≡ true) × IdsFrom (id + 1) slices ids

pub contains-remove :
    {V : Type 0} (m : Map V) (k j : ℕ)
    → contains_key (remove m k) j ≡ (if k == j then false else contains_key m j)
contains-remove m k j =
    ground (arith, contains_key-get (remove m k) j, get-remove m k j, contains_key-get m j)

pub IdsFrom-remove :
    (n k : ℕ) (slices : Map SliceConstructor) (ids : List ℕ)
    → k < n
    → IdsFrom n slices ids
    → IdsFrom n (remove slices k) ids
IdsFrom-remove n k slices [] h i = tt
IdsFrom-remove n k slices (id ∷ ids) h i = (
  i.0,
  contains-remove slices k id ∙ rw (==_false k id (λ e. omega (arith, e, h, i.0))) i.1,
  IdsFrom-remove (id + 1) k slices ids (omega (arith, h, i.0)) i.2,
)

pub lost_messages-IdsFrom :
    (now n : ℕ) (slices : Map SliceConstructor) (m : Map ℕ)
    → Ascending m
    → Entries (λ id t. (n ≤ id) × (t ≤ now) × (contains_key slices id ≡ true)) m
    → Returns (IdsFrom n slices) (lost_messages m now)
unfolding lost_messages
lost_messages-IdsFrom now n slices [] a e = ([], refl, tt)
lost_messages-IdsFrom now n slices ((id, t) ∷ m) a e =
    let (ids, q, i) = lost_messages-IdsFrom now (id + 1) slices m a.1 (above id m a.0 e.1) in
    let late : ltb now t ≡ false = ground (arith, e.0.1) in
    elim (Bool-cases (leb discard_after (now - t))) [
      | inl old ↦ rw (late, old, q) (id ∷ ids, refl, (e.0.0, e.0.2, i))
      | inr fresh ↦ rw (late, fresh) ([], refl, tt)
    ]
  where
    above :
        (k : ℕ) (m : Map ℕ)
        → Above k m
        → Entries (λ id t. (n ≤ id) × (t ≤ now) × (contains_key slices id ≡ true)) m
        → Entries (λ id t. (k + 1 ≤ id) × (t ≤ now) × (contains_key slices id ≡ true)) m
    above k [] a e = tt
    above k ((j, t) ∷ m) a e = ((omega (arith, a.0), e.0.1, e.0.2), above k m a.1 e.1)
