-- ===== src/Channel/Reliable/Send/Loop.antt =====
-- What holds of the packets while the sender's loop gathers them.
use renet.Base.{
  ℕ, suc, ◌+◌, ◌%◌, ◌^◌, ◌≤◌, ◌<◌, ◌≡◌, some, List, [], ◌∷◌, ◌++◌, arith, ltb, length,
  length-append, get_elem?, All, All-append, Bool-cases, inl, inr,
}
use renet.Base.Word.{IsU64, add_u64}
use renet.Packet.{
  Bytes, Packet, small_reliable, small_unreliable, unreliable_slice, reliable_slice, ack, Slice,
  sequence,
}
use renet.Channel.Pieces.{IsSliced, piece}
use renet.Channel.Reliable.Send.{Sending, flush, push_small, serialized_size}

-- `sent` lists the messages that the application has sent, in order: its index is the id.
abbrev pub IsMessage : List Bytes → ℕ × Bytes → Type 0
IsMessage sent (id, m) = (get_elem? sent id ≡ some m) × (length m ≤ 1200)

pub record IsPiece (sent : List Bytes) (slice : Slice) : Type 0 where
  pub message : Bytes
  pub known : get_elem? sent slice.message_id ≡ some message
  pub long : 1200 < length message
  pub cut : IsSliced message slice.num_slices
  pub index : slice.slice_index < slice.num_slices
  pub payload : slice.payload ≡ piece message slice.num_slices slice.slice_index

-- A packet carries nothing but messages that were sent, and slices of such.
abbrev pub Genuine : List Bytes → Packet → Type 0
Genuine sent (small_reliable s c ms) = All (IsMessage sent) ms
Genuine sent (reliable_slice s c slice) = IsPiece sent slice
Genuine sent (small_unreliable s c ms) = Unit {0}
Genuine sent (unreliable_slice s c slice) = Unit {0}
Genuine sent (ack s rs) = Unit {0}

-- The payload bytes of messages and of packets.
abbrev pub message_bytes : List (ℕ × Bytes) → ℕ
message_bytes [] = 0
message_bytes ((id, m) ∷ ms) = length m + message_bytes ms

abbrev pub packet_bytes : Packet → ℕ
packet_bytes (small_reliable s c ms) = message_bytes ms
packet_bytes (small_unreliable s c ms) = 0
packet_bytes (unreliable_slice s c slice) = length slice.payload
packet_bytes (reliable_slice s c slice) = length slice.payload
packet_bytes (ack s rs) = 0

abbrev pub bytes_of : List Packet → ℕ
bytes_of [] = 0
bytes_of (p ∷ ps) = packet_bytes p + bytes_of ps

-- The packets bear the sequences from `n` on.
abbrev pub Numbered : ℕ → List Packet → Type 0
Numbered n [] = Unit {0}
Numbered n (p ∷ ps) = (sequence p ≡ n % 2 ^ 64) × Numbered (suc n) ps

pub record Gathered (sent : List Bytes) (from budget : ℕ) (st : Sending) : Type 0 where
  pub genuine : All (Genuine sent) st.packets
  pub smalls : All (IsMessage sent) st.small_messages
  pub numbered : Numbered from st.packets
  pub next : st.packet_sequence ≡ (from + length st.packets) % 2 ^ 64
  pub spent : bytes_of st.packets + message_bytes st.small_messages + st.available_bytes ≡ budget
  pub word : IsU64 st.available_bytes

pub message_bytes-append :
    (ms ns : List (ℕ × Bytes)) → message_bytes (ms ++ ns) ≡ message_bytes ms + message_bytes ns
message_bytes-append [] ns = omega arith
message_bytes-append ((id, m) ∷ ms) ns = omega (arith, message_bytes-append ms ns)

pub bytes_of-append : (ps qs : List Packet) → bytes_of (ps ++ qs) ≡ bytes_of ps + bytes_of qs
bytes_of-append [] qs = omega arith
bytes_of-append (p ∷ ps) qs = omega (arith, bytes_of-append ps qs)

pub Numbered-append :
    (n : ℕ) (ps : List Packet) (p : Packet)
    → Numbered n ps
    → sequence p ≡ (n + length ps) % 2 ^ 64
    → Numbered n (ps ++ (p ∷ []))
Numbered-append n [] p h e = (omega arith, tt)
Numbered-append n (q ∷ ps) p h e = (h.0, Numbered-append (suc n) ps p h.1 (omega arith))

-- Appending a packet that bears the next sequence.
module _ (sent : List Bytes) (from budget : ℕ) (varint_len : ℕ → ℕ) (c r t : ℕ) where
  pub flush-Gathered :
      (st : Sending)
      → Gathered sent from budget st
      → Gathered sent from budget (flush varint_len c r t st)
  unfolding flush sequence add_u64
  flush-Gathered st g =
      let p = small_reliable st.packet_sequence c st.small_messages in
      record {
        genuine = All-append (Genuine sent) st.packets (p ∷ []) g.genuine (g.smalls, tt);
        smalls = tt;
        numbered = Numbered-append from st.packets p g.numbered g.next;
        next = omega (arith, length-append st.packets (p ∷ []), g.next);
        spent = omega (arith, bytes_of-append st.packets (p ∷ []), g.spent);
        word = g.word;
      }

  add_small :
      (st : Sending) (b b' n : ℕ) (e : ℕ × Bytes)
      → IsMessage sent e
      → b' ≡ b + length e.1
      → Gathered sent from b st
      → Gathered sent from b'
          (record st { small_messages_bytes = n; small_messages = st.small_messages ++ (e ∷ []) })
  add_small st b b' n (id, m) known q g = record {
    genuine = g.genuine;
    smalls = All-append (IsMessage sent) st.small_messages ((id, m) ∷ []) g.smalls (known, tt);
    numbered = g.numbered;
    next = g.next;
    spent = omega (arith, message_bytes-append st.small_messages ((id, m) ∷ []), g.spent);
    word = g.word;
  }

module _ (sent : List Bytes) (from : ℕ) (varint_len : ℕ → ℕ) (c r t : ℕ) where
  pub push_small-Gathered :
      (st : Sending) (b b' id : ℕ) (m : Bytes)
      → IsMessage sent (id, m)
      → b' ≡ b + length m
      → Gathered sent from b st
      → Gathered sent from b' (push_small varint_len c r t id m st)
  unfolding push_small
  push_small-Gathered st b b' id m known q g =
      elim (Bool-cases
        (ltb 1200 (add_u64 st.small_messages_bytes (serialized_size varint_len c r t id m)))) [
          | inl over ↦ rw over (
              add_small sent from b varint_len c r t (flush varint_len c r t st) b b'
                (add_u64 (flush varint_len c r t st).small_messages_bytes
                  (serialized_size varint_len c r t id m))
                (id, m) known q (flush-Gathered sent from b varint_len c r t st g))
          | inr fits ↦ rw fits (
              add_small sent from b varint_len c r t st b b'
                (add_u64 st.small_messages_bytes (serialized_size varint_len c r t id m)) (id, m)
                known q g)
        ]
